-- ===== src/System/Roster.antt =====
-- The members of the room against the sessions of the running server, and a client that comes.
use native.Mathlib.Decide.{dec_lt}
use rust_multichat_server.Base.{
  ℕ, zero, suc, ◌+◌, ◌^◌, ◌≤◌, ◌<◌, ◌≡◌, ap, refl, none, some, ◌∷◌, length, get_elem?, lookup,
  insert, Unique, Unique-insert, length-insert, lookup-insert, arith,
}
use rust_multichat_server.Room.{ClientMeta, join}
use rust_multichat_server.Client.Session.{Session, connect}
use rust_multichat_server.System.{System}

pub record Inv {F : Type 0} (s : System F) : Type 0 where
  pub members : length s.hub.room.clients ≡ length s.sessions + s.stranded
  pub unique : Unique s.hub.room.clients
  pub fresh : (k : ℕ) → s.next_id ≤ k → lookup k s.hub.room.clients ≡ none
  pub known :
      (j : ℕ) (c : Session)
      → get_elem? s.sessions j ≡ some c
      → lookup c.id s.hub.room.clients ≡ some (record { id = c.id; name = c.nick })
  pub distinct :
      (i j : ℕ) (c d : Session)
      → get_elem? s.sessions i ≡ some c
      → get_elem? s.sessions j ≡ some d
      → c.id ≡ d.id
      → i ≡ j
  pub bound : s.next_id ≤ 2 ^ 63
  pub filled : length s.hub.room.clients < s.next_id

module _ {F : Type 0} where
  pub older :
      (s : System F) (j : ℕ) (c : Session)
      → Inv s
      → get_elem? s.sessions j ≡ some c
      → c.id < s.next_id
  older s j c v e = elim (dec_lt c.id s.next_id) [
    | yes h ↦ h
    | no h ↦ absurd (ground (arith, v.known j c e, v.fresh c.id (omega arith)))
  ]

  pub admit-Inv :
      (s : System F)
      → Inv s
      → s.next_id < 2 ^ 63
      → Inv (record s {
        hub = (connect s.next_id s.hub).2;
        next_id = s.next_id + 1;
        sessions = (connect s.next_id s.hub).1 ∷ s.sessions;
      })
  unfolding connect join
  admit-Inv s v small =
      let m : ClientMeta = record { id = s.next_id; name = none } in
      let free = v.fresh s.next_id (omega arith) in
      let n = length-insert s.next_id m s.hub.room.clients free in
      record {
        members = omega (arith, n, v.members);
        unique = Unique-insert s.next_id m s.hub.room.clients v.unique;
        fresh = λ k h.
            ground (arith, lookup-insert s.next_id k m s.hub.room.clients, v.fresh k (omega arith));
        known = admitted_known;
        distinct = admitted_distinct;
        bound = omega arith;
        filled = omega (arith, n, v.filled);
      }
    where
      admitted_known :
          (j : ℕ) (c : Session)
          → get_elem? ((connect s.next_id s.hub).1 ∷ s.sessions) j ≡ some c
          → lookup c.id
              (insert s.next_id (record { id = s.next_id; name = none }) s.hub.room.clients)
            ≡ some (record { id = c.id; name = c.nick })
      admitted_known zero c e = ground (
        arith,
        lookup-insert s.next_id c.id (record { id = s.next_id; name = none }) s.hub.room.clients,
      )
      admitted_known (suc j) c e = ground (
        arith,
        lookup-insert s.next_id c.id (record { id = s.next_id; name = none }) s.hub.room.clients,
        v.known j c e,
        older s j c v e,
      )

      admitted_distinct :
          (i j : ℕ) (c d : Session)
          → get_elem? ((connect s.next_id s.hub).1 ∷ s.sessions) i ≡ some c
          → get_elem? ((connect s.next_id s.hub).1 ∷ s.sessions) j ≡ some d
          → c.id ≡ d.id
          → i ≡ j
      admitted_distinct zero zero c d e f h = refl
      admitted_distinct zero (suc j) c d e f h = absurd (ground (arith, older s j d v f))
      admitted_distinct (suc i) zero c d e f h = absurd (ground (arith, older s i c v e))
      admitted_distinct (suc i) (suc j) c d e f h = ap suc (v.distinct i j c d e f h)

  pub stranded-Inv :
      (s : System F)
      → Inv s
      → s.next_id < 2 ^ 63
      → Inv (record s {
        hub = (connect s.next_id s.hub).2;
        next_id = s.next_id + 1;
        stranded = s.stranded + 1;
      })
  unfolding connect join
  stranded-Inv s v small =
      let m : ClientMeta = record { id = s.next_id; name = none } in
      let n = length-insert s.next_id m s.hub.room.clients (v.fresh s.next_id (omega arith)) in
      record {
        members = omega (arith, n, v.members);
        unique = Unique-insert s.next_id m s.hub.room.clients v.unique;
        fresh = λ k h.
            ground (arith, lookup-insert s.next_id k m s.hub.room.clients, v.fresh k (omega arith));
        known = λ j c e. ground (
          arith,
          lookup-insert s.next_id c.id m s.hub.room.clients,
          v.known j c e,
          older s j c v e,
        );
        distinct = v.distinct;
        bound = omega arith;
        filled = omega (arith, n, v.filled);
      }
