-- ===== src/Room/Race.antt =====
-- The throttle under any interleaving: each atomic operation of `broadcast_vote_throttled`,
-- `schedule_vote_flush` and `flush_pending_vote_snapshot` is a step of its own.
use rust_multichat_server.Base.{
  ℕ, ◌-◌, ◌≤◌, ◌<◌, ◌≡◌, ◌≢◌, ◌⊎◌, Bool, true, false, Option, none, some, List, [], ◌∷◌, ◌++◌,
  get_elem?, set,
}
use rust_multichat_server.Protocol.{ServerMsg}
use rust_multichat_server.Room.{vote_broadcast_throttle_ms}

-- Where a task stands, with the locals that are live there.
pub data Task (F : Type 0) : Type 0 where
  loaded : (msg : ServerMsg F) (now_ms last : ℕ) → Task F  -- before the `compare_exchange`
  parking : ServerMsg F → Task F  -- before the write of the pending snapshot
  parked : Task F  -- before the `swap` of `schedule_vote_flush`
  claimed : Task F  -- the swap found `false`: before the spawn
  sleeping : Task F  -- the spawned task, before it clears the flag
  woken : Task F  -- before it takes the pending snapshot
  took : ServerMsg F → Task F  -- before it stores the time
  sending : ServerMsg F → Task F  -- before `tx.send`
  done : Task F

pub record State (F : Type 0) : Type 0 where
  pub last : ℕ
  pub pending : Option (ServerMsg F)
  pub scheduled : Bool
  pub sent : List (ServerMsg F)
  pub tasks : List (Task F)

-- After the take: a task that found nothing is done.
abbrev pub taken : {F : Type 0} → Option (ServerMsg F) → Task F
taken none = done
taken (some msg) = took msg

module _ {F : Type 0} where
  -- Task `j` goes on to `t`.
  abbrev pub goes : State F → ℕ → Task F → State F
  goes s j t = record s { tasks = set s.tasks j t }

  pub data Step (s : State F) : State F → Type 0 where
    call :
        (msg : ServerMsg F) (now_ms : ℕ)
        → Step s (record s { tasks = loaded msg now_ms s.last ∷ s.tasks })
    win :
        (j : ℕ) {msg : ServerMsg F} {now_ms last : ℕ}
        → get_elem? s.tasks j ≡ some (loaded msg now_ms last)
        → vote_broadcast_throttle_ms ≤ now_ms - last
        → s.last ≡ last
        → Step s (goes (record s { last = now_ms }) j (sending msg))
    lose :
        (j : ℕ) {msg : ServerMsg F} {now_ms last : ℕ}
        → get_elem? s.tasks j ≡ some (loaded msg now_ms last)
        → (now_ms - last < vote_broadcast_throttle_ms) ⊎ (s.last ≢ last)
        → Step s (goes s j (parking msg))
    park :
        (j : ℕ) {msg : ServerMsg F}
        → get_elem? s.tasks j ≡ some (parking msg)
        → Step s (goes (record s { pending = some msg }) j parked)
    swap_first :
        (j : ℕ)
        → get_elem? s.tasks j ≡ some parked
        → s.scheduled ≡ false
        → Step s (goes (record s { scheduled = true }) j claimed)
    swap_later :
        (j : ℕ) → get_elem? s.tasks j ≡ some parked → s.scheduled ≡ true → Step s (goes s j done)
    spawn : (j : ℕ) → get_elem? s.tasks j ≡ some claimed → Step s (goes s j sleeping)
    wake :
        (j : ℕ)
        → get_elem? s.tasks j ≡ some sleeping
        → Step s (goes (record s { scheduled = false }) j woken)
    take_pending :
        (j : ℕ)
        → get_elem? s.tasks j ≡ some woken
        → Step s (goes (record s { pending = none }) j (taken s.pending))
    store :
        (j now_ms : ℕ) {msg : ServerMsg F}
        → get_elem? s.tasks j ≡ some (took msg)
        → Step s (goes (record s { last = now_ms }) j (sending msg))
    send :
        (j : ℕ) {msg : ServerMsg F}
        → get_elem? s.tasks j ≡ some (sending msg)
        → Step s (goes (record s { sent = s.sent ++ msg ∷ [] }) j done)

  abbrev pub init : State F
  init = record { last = 0; pending = none; scheduled = false; sent = []; tasks = [] }

  pub data Reach : State F → Type 0 where
    start : Reach init
    later : {s t : State F} → Reach s → Step s t → Reach t
