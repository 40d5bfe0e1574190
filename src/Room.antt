-- ===== src/Room.antt =====
-- src/room.rs: the room. Each function is one uninterrupted run of the method; a read of the clock
-- is an argument. `sent` logs what goes to `tx.send`, `timers` the delays of the spawned flush
-- tasks. `Room/Race.antt` interleaves the atomic operations of the throttle.
pub mod Members
pub mod Throttle
pub mod Race
pub mod Pending
pub mod Settle
pub mod Quiet
pub mod Refines
pub mod Suite
use rust_multichat_server.Base.{
  ℕ, ◌-◌, ◌%◌, ◌^◌, max, Bool, true, false, Option, none, some, List, [], ◌∷◌, ◌++◌, if◌then◌else◌,
  leb, ◌==◌, length, insert, remove, modify,
}
use rust_multichat_server.Protocol.{Text, ServerMsg, presence, BroadcastEvent, server}

abbrev pub broadcast_cap : ℕ
broadcast_cap = 524288

abbrev pub vote_broadcast_throttle_ms : ℕ
vote_broadcast_throttle_ms = 50

pub record ClientMeta : Type 0 where
  pub id : ℕ
  pub name : Option Text

pub record Room (F : Type 0) : Type 0 where
  pub capacity : ℕ
  pub sent : List (BroadcastEvent F)
  pub clients : List (ℕ × ClientMeta)
  pub last_vote_broadcast_ms : ℕ
  pub pending_vote_broadcast : Option (ServerMsg F)
  pub vote_flush_scheduled : Bool
  pub timers : List ℕ

-- The delay before a flush that is scheduled at `now_ms`.
unfoldable pub flush_delay : ℕ → ℕ → ℕ
flush_delay now_ms last = max (vote_broadcast_throttle_ms - (now_ms - last)) 1

module _ {F : Type 0} where
  unfoldable pub new_with_capacity : ℕ → Room F
  new_with_capacity capacity = record {
    capacity = capacity;
    sent = [];
    clients = [];
    last_vote_broadcast_ms = 0;
    pending_vote_broadcast = none;
    vote_flush_scheduled = false;
    timers = [];
  }

  unfoldable pub new : Room F
  unfolding new_with_capacity
  new = new_with_capacity broadcast_cap

  -- `self.tx.send(event)`, whose result the room ignores.
  abbrev pub send : BroadcastEvent F → Room F → Room F
  send event r = record r { sent = r.sent ++ event ∷ [] }

  -- The receiver gets what is sent from then on: its place in the log.
  unfoldable pub subscribe : Room F → ℕ
  subscribe r = length r.sent

  unfoldable pub broadcast : ServerMsg F → Room F → Room F
  broadcast msg r = send (server msg) r

  unfoldable pub join : ℕ → Room F → Room F × ℕ
  join id r =
      let clients = insert id (record { id = id; name = none }) r.clients in
      (send (server (presence id true)) (record r { clients = clients }), length clients % 2 ^ 64)

  unfoldable pub leave : ℕ → Room F → Room F
  leave id r = send (server (presence id false)) (record r { clients = remove id r.clients })

  unfoldable pub client_count : Room F → ℕ
  client_count r = length r.clients

  unfoldable pub set_nick : ℕ → Text → Room F → Room F
  set_nick id name r = record r {
    clients = modify id (λ m. record m { name = some name }) r.clients;
  }

  -- `compare_exchange` on `last_vote_broadcast_ms`.
  unfoldable pub compare_exchange : ℕ → ℕ → Room F → Room F × Bool
  compare_exchange expected value r =
      if r.last_vote_broadcast_ms == expected
      then (record r { last_vote_broadcast_ms = value }, true)
      else (r, false)

  -- `now_ms` is the clock of `schedule_vote_flush`.
  unfoldable pub schedule_vote_flush : ℕ → Room F → Room F
  unfolding flush_delay
  schedule_vote_flush now_ms r = if r.vote_flush_scheduled then r else record r {
    vote_flush_scheduled = true;
    timers = r.timers ++ flush_delay now_ms r.last_vote_broadcast_ms ∷ [];
  }

  -- The tail of `broadcast_vote_throttled`: the snapshot waits for a flush.
  unfoldable pub park_vote : ServerMsg F → ℕ → Room F → Room F
  unfolding schedule_vote_flush
  park_vote msg schedule_ms r =
      schedule_vote_flush schedule_ms (record r { pending_vote_broadcast = some msg })

  -- `now_ms` is the clock of the method, `schedule_ms` that of the `schedule_vote_flush` it calls.
  unfoldable pub broadcast_vote_throttled : ServerMsg F → ℕ → ℕ → Room F → Room F
  unfolding compare_exchange park_vote
  broadcast_vote_throttled msg now_ms schedule_ms r =
      let last = r.last_vote_broadcast_ms in
      if leb vote_broadcast_throttle_ms (now_ms - last)
      then (let (won, exchanged) = compare_exchange last now_ms r in
          if exchanged then send (server msg) won else park_vote msg schedule_ms won)
      else park_vote msg schedule_ms r

  unfoldable pub flush_pending_vote_snapshot : ℕ → Room F → Room F
  flush_pending_vote_snapshot now_ms r =
      let cleared : Room F = record r {
        vote_flush_scheduled = false;
        pending_vote_broadcast = none;
      } in
      elim r.pending_vote_broadcast [
        | none ↦ cleared
        | some msg ↦ send (server msg) (record cleared { last_vote_broadcast_ms = now_ms })
      ]
