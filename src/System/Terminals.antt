-- ===== src/System/Terminals.antt =====
-- The presence events that a step of the running server adds to the log, and its members.
use rust_multichat_server.Base.{
  ℕ, ◌+◌, ◌^◌, ◌<◌, ◌≡◌, sym, ap, ◌∙◌, refl, true, false, Option, none, some, List, [], ◌∷◌, ◌++◌,
  append-nil, append_assoc, length, lookup, arith, length-insert, length-remove, length-modify,
  Unique, inl, inr,
}
use rust_multichat_server.Protocol.{
  ClientMsg, set_nick, vote, unvote, ServerMsg, welcome, vote_snapshot, presence, error,
  BroadcastEvent, server, shutdown, Floats,
}
use rust_multichat_server.Protocol
use rust_multichat_server.Room
use rust_multichat_server.Room.{Room, ClientMeta, client_count, join, leave}
use rust_multichat_server.Room.Throttle.{call, call-sent}
use rust_multichat_server.Client.Session.{
  Session, Hub, Codec, Times, connect, decode, handle_line, disconnect, take_back, announce_votes,
}
use rust_multichat_server.Client.Session.Membership.{throttled-clients, take_back-clients}
use rust_multichat_server.Client.Writer.{Open, Open-append}
use rust_multichat_server.System.{System, Step, admit, welcome_fails, receive, depart, flush}
use rust_multichat_server.System.Roster.{Inv}
use rust_multichat_server.System.Tally.{tally, tally-append}

module _ {F : Type 0} where
  -- A snapshot that waits for a flush is one of votes.
  abbrev pub IsVotes : Option (ServerMsg F) → Type 0
  IsVotes none = Unit
  IsVotes (some (vote_snapshot counts percentages)) = Unit
  IsVotes (some _) = ⊥

  -- What a step of the server adds to the log, and does to the members.
  pub record Adds (r r' : Room F) : Type 0 where
    pub news : List (BroadcastEvent F)
    pub sent : r'.sent ≡ r.sent ++ news
    pub open_still : Open news
    pub follows :
        length r.clients + 2 < 2 ^ 64 → tally news (length r.clients + 1) ≡ length r'.clients + 1
    pub votes : IsVotes r.pending_vote_broadcast → IsVotes r'.pending_vote_broadcast

  quiet :
      (r r' : Room F)
      → r'.sent ≡ r.sent
      → length r'.clients ≡ length r.clients
      → (IsVotes r.pending_vote_broadcast → IsVotes r'.pending_vote_broadcast)
      → Adds r r'
  quiet r r' e n v = record {
    news = [];
    sent = e ∙ sym (append-nil r.sent);
    open_still = tt;
    follows = λ small. omega (arith, n);
    votes = v;
  }

  throttled-Adds :
      (counts : List ℕ) (percentages : List F) (now_ms schedule_ms : ℕ) (r : Room F)
      → Adds r
          (Room.broadcast_vote_throttled (vote_snapshot counts percentages) now_ms schedule_ms r)
  unfolding call
  throttled-Adds counts percentages now_ms schedule_ms r =
      let msg = vote_snapshot counts percentages in
      let same = ap length (throttled-clients msg now_ms schedule_ms r) in
      elim (call-sent (record { msg = msg; now_ms = now_ms; schedule_ms = schedule_ms }) r) [
        | inl (s, _, _, p) ↦ record {
          news = server msg ∷ [];
          sent = s;
          open_still = tt;
          follows = λ small. omega (arith, same);
          votes = λ v. rw p v;
        }
        | inr (s, _, _, p, _) ↦ quiet r _ s same (λ v. rw p tt)
      ]

  flush_parked-Adds :
      (now_ms : ℕ) (p : Option (ServerMsg F)) (r : Room F)
      → IsVotes p
      → Adds
          (record r { pending_vote_broadcast = p })
          (Room.flush_pending_vote_snapshot now_ms (record r { pending_vote_broadcast = p }))
  unfolding Room.flush_pending_vote_snapshot
  flush_parked-Adds now_ms none r v = quiet _ _ refl refl (λ v. tt)
  flush_parked-Adds now_ms (some (vote_snapshot counts percentages)) r v = record {
    news = server (vote_snapshot counts percentages) ∷ [];
    sent = refl;
    open_still = tt;
    follows = λ small. refl;
    votes = λ v. tt;
  }
  flush_parked-Adds now_ms (some (welcome n)) r v = absurd v
  flush_parked-Adds now_ms (some (presence id joined)) r v = absurd v
  flush_parked-Adds now_ms (some (error text)) r v = absurd v
  flush_parked-Adds now_ms (some (Protocol.ServerMsg.chat from nick text sent_at ts)) r v = absurd v

  join-Adds : (id : ℕ) (r : Room F) → lookup id r.clients ≡ none → Adds r (join id r).0
  unfolding join
  join-Adds id r fresh = record {
    news = server (presence id true) ∷ [];
    sent = refl;
    open_still = tt;
    follows = λ small. omega (arith, length-insert id _ r.clients fresh);
    votes = λ v. v;
  }

  leave-Adds :
      (id : ℕ) (m : ClientMeta) (r : Room F)
      → Unique r.clients
      → lookup id r.clients ≡ some m
      → Adds r (leave id r)
  unfolding leave
  leave-Adds id m r u found = record {
    news = server (presence id false) ∷ [];
    sent = refl;
    open_still = tt;
    follows = λ small. omega (arith, length-remove id m r.clients u found);
    votes = λ v. v;
  }

  Adds-trans :
      {a b c : Room F} → length b.clients ≡ length a.clients → Adds a b → Adds b c → Adds a c
  Adds-trans {a} same f g = record {
    news = f.news ++ g.news;
    sent =
        g.sent
        ∙ ap (λ (l : List (BroadcastEvent F)). l ++ g.news) f.sent
        ∙ append_assoc a.sent f.news g.news;
    open_still = Open-append f.news g.news f.open_still g.open_still;
    follows = λ small.
        tally-append f.news g.news (length a.clients + 1)
        ∙ ap (tally g.news) (f.follows small ∙ omega (arith, same))
        ∙ g.follows (omega (arith, same));
    votes = λ v. g.votes (f.votes v);
  }

module _ {F : Type 0} (codec : Codec F) where
  take_back-Adds :
      (held : Option ℕ) (t : Times) (h : Hub F) → Adds h.room (take_back codec held t h).room
  unfolding take_back announce_votes
  take_back-Adds none t h = quiet h.room h.room refl refl (λ v. v)
  take_back-Adds (some p) t h = throttled-Adds _ _ t.now_ms t.schedule_ms h.room

  handle_line-Adds :
      (msg : Option ClientMsg) (t : Times) (c : Session × Hub F)
      → Adds c.1.room (handle_line codec msg t c).1.room
  unfolding handle_line announce_votes
  handle_line-Adds none t (s, h) = quiet h.room h.room refl refl (λ v. v)
  handle_line-Adds (some (set_nick name)) t (s, h) =
      unfold Room.set_nick in quiet h.room _ refl (length-modify s.id _ h.room.clients) (λ v. v)
  handle_line-Adds (some (Protocol.ClientMsg.chat text ts)) t (s, h) =
      unfold Room.broadcast in
      record { news = _; sent = refl; open_still = tt; follows = λ small. refl; votes = λ v. v }
  handle_line-Adds (some (vote option)) t (s, h) = throttled-Adds _ _ t.now_ms t.schedule_ms h.room
  handle_line-Adds (some unvote) t (s, h) = take_back-Adds s.current_vote t _

  disconnect-Adds :
      (t : Times) (c : Session) (h : Hub F) (m : ClientMeta)
      → Unique h.room.clients
      → lookup c.id h.room.clients ≡ some m
      → Adds h.room (disconnect codec t (c, h)).room
  unfolding disconnect
  disconnect-Adds t c h m u found =
      let same = take_back-clients codec c.current_vote t h in
      Adds-trans (ap length same) (take_back-Adds c.current_vote t h)
        (leave-Adds c.id m _ (rw same u) (rw same found))

  pub Step-Adds :
      {s t : System F}
      → Step codec s t
      → Inv s
      → IsVotes s.hub.room.pending_vote_broadcast
      → Adds s.hub.room t.hub.room
  unfolding connect
  Step-Adds {s} (admit room small) v p =
      join-Adds s.next_id s.hub.room (v.fresh s.next_id (omega arith))
  Step-Adds {s} (welcome_fails room small) v p =
      join-Adds s.next_id s.hub.room (v.fresh s.next_id (omega arith))
  Step-Adds {s} (receive j raw t {c} e) v p = handle_line-Adds (decode codec raw) t (c, s.hub)
  Step-Adds {s} (depart j t {c} e) v p = disconnect-Adds t c s.hub _ v.unique (v.known j c e)
  Step-Adds {s} (flush now_ms) v p =
      flush_parked-Adds now_ms s.hub.room.pending_vote_broadcast s.hub.room p
