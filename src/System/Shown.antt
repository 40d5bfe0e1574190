-- ===== src/System/Shown.antt =====
-- What the title of a terminal's chat shows, against the members of the room.
use rust_multichat_server.Base.{
  ℕ, ◌+◌, ◌^◌, ◌<◌, ◌≡◌, ◌≢◌, sym, ap, ◌∙◌, refl, Bool, none, some, List, [], ◌∷◌, ◌++◌, append-nil,
  append_assoc, length, drop, lookup, lookup-insert, arith, length-insert, true,
}
use rust_multichat_server.Protocol.{presence, welcome, BroadcastEvent, server, Floats}
use rust_multichat_server.Room
use rust_multichat_server.Room.{Room, ClientMeta, client_count, join}
use rust_multichat_server.Client.Session.{Codec, connect}
use rust_multichat_server.Client.Writer.{Open, Open-append, write_task, in_time, write_task-in_time}
use rust_multichat_server.Tui.{AppState, apply_all, apply_msg, title_count}
use rust_multichat_server.Tui
use rust_multichat_server.System.{System, main_hub, boot, Reach, here, later}
use rust_multichat_server.System.Members
use rust_multichat_server.System.Tally.{tally, tally-append, apply_all-tally}
use rust_multichat_server.System.Terminals.{IsVotes, Step-Adds}

drop-length {ℓ} : {A : Type ℓ} (xs ys : List A) → drop (length xs) (xs ++ ys) ≡ ys
drop-length [] ys = refl
drop-length (x ∷ xs) ys = drop-length xs ys

title-suc :
    {F : Type 0} (checks : Bool) (st : AppState F) (n : ℕ)
    → st.client_count ≡ n + 1
    → title_count checks st ≡ some n
unfolding title_count
title-suc checks st n e = ground arith

module _ {F : Type 0} (codec : Codec F) where
  Reach-IsVotes : {s : System F} → Reach codec boot s → IsVotes s.hub.room.pending_vote_broadcast
  unfolding main_hub Room.new Room.new_with_capacity
  Reach-IsVotes here = tt
  Reach-IsVotes (later r st) =
      (Step-Adds codec st (Members.Reach-Inv codec r) (Reach-IsVotes r)).votes (Reach-IsVotes r)

  Reach-trans : {a b c : System F} → Reach codec a b → Reach codec b c → Reach codec a c
  Reach-trans r here = r
  Reach-trans r (later q st) = later (Reach-trans r q) st

  -- What has been sent from `a` on, and what it does to a count of one more than the members.
  record Since (a s : System F) : Type 0 where
    news : List (BroadcastEvent F)
    sent : s.hub.room.sent ≡ a.hub.room.sent ++ news
    open_still : Open news
    count : tally news (length a.hub.room.clients + 1) ≡ length s.hub.room.clients + 1

  Reach-Since : {a s : System F} → Reach codec boot a → Reach codec a s → Since a s
  Reach-Since {a} r here = record {
    news = [];
    sent = sym (append-nil a.hub.room.sent);
    open_still = tt;
    count = refl;
  }
  Reach-Since {a} r (later {t} {u} q st) =
      let f = Reach-Since r q in
      let inv = Members.Reach-Inv codec (Reach-trans r q) in
      let g = Step-Adds codec st inv (Reach-IsVotes (Reach-trans r q)) in
      record {
        news = f.news ++ g.news;
        sent =
            g.sent
            ∙ ap (λ (l : List (BroadcastEvent F)). l ++ g.news) f.sent
            ∙ append_assoc a.hub.room.sent f.news g.news;
        open_still = Open-append f.news g.news f.open_still g.open_still;
        count =
            tally-append f.news g.news (length a.hub.room.clients + 1)
            ∙ ap (tally g.news) f.count
            ∙ g.follows (omega (arith, inv.bound, inv.filled));
      }

  delivered :
      {a s : System F} (st : AppState F)
      → Reach codec boot a
      → Reach codec a s
      → st.client_count ≡ length a.hub.room.clients + 1
      → (apply_all
          (write_task (in_time (drop (length a.hub.room.sent) s.hub.room.sent))).0
          st).client_count
        ≡ length s.hub.room.clients + 1
  delivered {a} {s} st r q e =
      let f = Reach-Since r q in
      let all : drop (length a.hub.room.sent) s.hub.room.sent ≡ f.news =
        ap (drop (length a.hub.room.sent)) f.sent ∙ drop-length a.hub.room.sent f.news in
      let written = ap (λ p. p.0) (write_task-in_time f.news [] f.open_still).0 in
      rw (all, written) (apply_all-tally f.news st ∙ ap (tally f.news) e ∙ f.count)

  -- A client that is admitted in a state `a` of the running server gets its welcome line and then,
  -- while its receiver keeps up and its writes come through, every event from its admission on. In
  -- every later state the title of its chat shows the number of members of the room.
  pub title_count-client_count :
      (f32 : Floats F) (checks : Bool) {a s : System F}
      → Reach codec boot a
      → Reach codec a s
      → title_count checks (
          apply_all
            ((connect a.next_id a.hub).0
              ∷ (write_task (in_time (drop (length a.hub.room.sent) s.hub.room.sent))).0)
            (Tui.new f32))
        ≡ some (client_count s.hub.room)
  unfolding apply_all connect join client_count apply_msg
  title_count-client_count f32 checks {a} {s} r q =
      let inv = Members.Reach-Inv codec r in
      let n =
        length-insert a.next_id (record { id = a.next_id; name = none }) a.hub.room.clients
          (inv.fresh a.next_id (omega arith)) in
      title-suc checks _ (length s.hub.room.clients)
        (delivered _ r q (omega (arith, n, inv.bound, inv.filled)))

-- A client with a new id that subscribes in a room `r` of fewer than 2 ^ 63 members, and joins only
-- after another new client has joined, gets the other's presence event although its welcome line
-- has counted the other: once both presence events are written to it in time, the title of its chat
-- shows one participant more than the room has.
pub late_join-title_count :
    {F : Type 0} (f32 : Floats F) (checks : Bool) (id other : ℕ) (r : Room F)
    → lookup id r.clients ≡ none
    → lookup other r.clients ≡ none
    → id ≢ other
    → length r.clients < 2 ^ 63
    → let between = (join other r).0 in
      let (joined, peer_count) = join id between in
      title_count checks (
        apply_all
          (welcome peer_count ∷ (write_task (in_time (drop (length r.sent) joined.sent))).0)
          (Tui.new f32))
      ≡ some (client_count joined + 1)
unfolding join client_count
late_join-title_count {F} f32 checks id other r free free_other apart small =
    let m : ClientMeta = record { id = other; name = none } in
    let n = length-insert other m r.clients free_other in
    let k =
      length-insert id (record { id = id; name = none }) (join other r).0.clients
        (ground (arith, lookup-insert other id m r.clients)) in
    let news : List (BroadcastEvent F) =
      server (presence other true) ∷ server (presence id true) ∷ [] in
    let all : drop (length r.sent) ((join id (join other r).0).0.sent) ≡ news =
      ap (drop (length r.sent)) (append_assoc r.sent _ _) ∙ drop-length r.sent news in
    let written = ap (λ p. p.0) (write_task-in_time news [] tt).0 in
    title-suc checks _ _
      (rw (all, written) (unfold apply_all apply_msg Tui.push_msg in omega (arith, n, k)))
