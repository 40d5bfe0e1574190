-- ===== src/System/Members.antt =====
-- The sessions of the running server and the members of its room.
use rust_multichat_server.Base.{
  ℕ, suc, ◌≡◌, refl, Option, some, length-set, length-remove_at, get_elem?, get_elem?-set,
  get_elem?-remove_at, set, remove_at, Unique-remove, length-remove, lookup-remove, ◌==◌,
  Bool-cases, inl, inr, arith,
}
use rust_multichat_server.Protocol.{ClientMsg}
use rust_multichat_server.Room
use rust_multichat_server.Room.{ClientMeta, Room, client_count, join}
use rust_multichat_server.Client.Session.{Session, Codec, Times, decode, handle_line, disconnect}
use rust_multichat_server.Client.Session.Membership.{take_back-clients}
use rust_multichat_server.Client.Session.Chats.{handle_line-next_nick}
use rust_multichat_server.System.Renamed.{handle_line-Renamed}
use rust_multichat_server.System.{
  System, main_hub, boot, Step, admit, welcome_fails, receive, depart, flush, Reach, here, later,
}
use rust_multichat_server.System.Roster.{Inv, older, admit-Inv, stranded-Inv}

module _ {F : Type 0} (codec : Codec F) where
  boot-Inv : Inv (boot {F = F})
  unfolding main_hub Room.new Room.new_with_capacity
  boot-Inv = record {
    members = refl;
    unique = tt;
    fresh = λ k h. refl;
    known = λ j c h. absurd (cc);
    distinct = λ i j c d h k e. absurd (cc);
    bound = omega arith;
    filled = omega arith;
  }

  receive-Inv :
      (s : System F) (j : ℕ) (msg : Option ClientMsg) (t : Times) (c : Session)
      → get_elem? s.sessions j ≡ some c
      → Inv s
      → Inv (record s {
        hub = (handle_line codec msg t (c, s.hub)).1;
        sessions = set s.sessions j (handle_line codec msg t (c, s.hub)).0;
      })
  receive-Inv s j msg t c e v =
      let c' = (handle_line codec msg t (c, s.hub)).0 in
      let (same, r) = handle_line-Renamed codec msg t (c, s.hub) in
      let nick = handle_line-next_nick codec msg t (c, s.hub) in
      record {
        members = omega (arith, r.same_number, length-set s.sessions j c', v.members);
        unique = r.same_unique v.unique;
        fresh = λ k h. ground (arith, r.looked_up k, v.fresh k h, older s j c v e);
        known = λ i d f. elim (Bool-cases (j == i)) [
          | inl own ↦ ground (
            arith,
            get_elem?-set s.sessions j i c c' e,
            r.looked_up d.id,
            v.known j c e,
            same,
            nick,
          )
          | inr other ↦ ground (
            arith,
            get_elem?-set s.sessions j i c c' e,
            r.looked_up d.id,
            v.known i d,
            v.distinct j i c d e,
          )
        ];
        distinct = λ i k d f g h q. ground (
          arith,
          get_elem?-set s.sessions j i c c' e,
          get_elem?-set s.sessions j k c c' e,
          same,
          v.distinct i k d f,
          v.distinct j k c f e,
          v.distinct i j d c,
        );
        bound = v.bound;
        filled = omega (arith, r.same_number, v.filled);
      }

  depart-Inv :
      (s : System F) (j : ℕ) (t : Times) (c : Session)
      → get_elem? s.sessions j ≡ some c
      → Inv s
      → Inv (record s { hub = disconnect codec t (c, s.hub); sessions = remove_at s.sessions j })
  unfolding disconnect Room.leave
  depart-Inv s j t c e v =
      let same = take_back-clients codec c.current_vote t s.hub in
      let n = length-remove c.id _ s.hub.room.clients v.unique (v.known j c e) in
      record {
        members = rw same (omega (arith, n, length-remove_at s.sessions j c e, v.members));
        unique = rw same (Unique-remove c.id s.hub.room.clients v.unique);
        fresh =
            λ k h. rw same (ground (arith, lookup-remove c.id k s.hub.room.clients, v.fresh k h));
        known = λ i d f. rw same (
            ground (
              arith,
              get_elem?-remove_at s.sessions j i,
              lookup-remove c.id d.id s.hub.room.clients,
              v.known i d,
              v.known (suc i) d,
              v.distinct j i c d e,
              v.distinct j (suc i) c d e,
            ));
        distinct = λ i k d f g h q. ground (
          arith,
          get_elem?-remove_at s.sessions j i,
          get_elem?-remove_at s.sessions j k,
          v.distinct i k d f,
          v.distinct (suc i) k d f,
          v.distinct i (suc k) d f,
          v.distinct (suc i) (suc k) d f,
        );
        bound = v.bound;
        filled = rw same (omega (arith, n, v.filled));
      }

  Step-Inv : {s t : System F} → Step codec s t → Inv s → Inv t
  Step-Inv {s} (admit room small) v = admit-Inv s v small
  Step-Inv {s} (welcome_fails room small) v = stranded-Inv s v small
  Step-Inv {s} (receive j raw t {c} e) v = receive-Inv s j (decode codec raw) t c e v
  Step-Inv {s} (depart j t {c} e) v = depart-Inv s j t c e v
  Step-Inv {s} (flush now_ms) v = unfold Room.flush_pending_vote_snapshot in ground arith

  -- In every state that the running server reaches, the members of the room are as many as the
  -- connected clients and those whose welcome line failed, each once; every connected client is a
  -- member under its id, which no other session has, with the nick that its session holds. No id
  -- from the next one on is a member's, and the next id is above the number of members and at most
  -- 2 ^ 63.
  pub Reach-Inv : {s : System F} → Reach codec boot s → Inv s
  Reach-Inv here = boot-Inv
  Reach-Inv (later r st) = Step-Inv st (Reach-Inv r)
