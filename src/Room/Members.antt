-- ===== src/Room/Members.antt =====
-- Who is in the room.
use mathlib.Core.Option
use rust_multichat_server.Base.{
  ℕ, ◌+◌, ◌^◌, ◌<◌, ◌≡◌, refl, true, false, none, some, [], ◌∷◌, ◌++◌, arith, if◌then◌else◌, ◌==◌,
  length, lookup, lookup-insert, length-insert, remove-insert, lookup-modify, length-modify,
  append_assoc,
}
use rust_multichat_server.Protocol.{Text, presence, server}
use rust_multichat_server.Room.{ClientMeta, Room, join, leave, set_nick, client_count}

module _ {F : Type 0} where
  -- A client whose id is new to a room of fewer than 2 ^ 63 members is told the number of members
  -- that were there plus one, and is then a member with no name; the other members are unchanged.
  pub join_count :
      (id : ℕ) (r : Room F)
      → lookup id r.clients ≡ none
      → length r.clients < 2 ^ 63
      → ((join id r).1 ≡ length r.clients + 1)
        × ((join id r).1 ≡ client_count (join id r).0)
        × ((j : ℕ)
            → lookup j (join id r).0.clients
              ≡ (if id == j then some (record { id = id; name = none }) else lookup j r.clients))
  unfolding join client_count
  join_count id r fresh few = (
    omega (arith, length-insert id _ r.clients fresh),
    omega (arith, length-insert id _ r.clients fresh),
    λ j. lookup-insert id j _ r.clients,
  )

  -- A client that joins under a new id and leaves again has changed nothing but the log of sent
  -- events, which gained its two presence events in that order.
  pub leave-join :
      (id : ℕ) (r : Room F)
      → lookup id r.clients ≡ none
      → leave id (join id r).0
        ≡ record r { sent = r.sent ++ server (presence id true) ∷ server (presence id false) ∷ [] }
  unfolding join leave
  leave-join id r fresh = ground (
    arith,
    remove-insert id (record { id = id; name = none }) r.clients fresh,
    append_assoc r.sent (server (presence id true) ∷ []) (server (presence id false) ∷ []),
  )

  -- Setting a nickname changes the name of that member alone, adds no member for an unknown id,
  -- keeps the number of members and sends nothing.
  pub set_nick_lem :
      (id : ℕ) (name : Text) (r : Room F)
      → ((j : ℕ)
          → lookup j (set_nick id name r).clients ≡ (
              if id == j
              then Option.map {A = ClientMeta}
                  (λ m. record m { name = some name })
                  (lookup j r.clients)
              else lookup j r.clients))
        × (client_count (set_nick id name r) ≡ client_count r)
        × ((set_nick id name r).sent ≡ r.sent)
  unfolding set_nick client_count
  set_nick_lem id name r = (λ j. lookup-modify id j _ r.clients, length-modify id _ r.clients, refl)
