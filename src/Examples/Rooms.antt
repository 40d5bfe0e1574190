-- ===== src/Examples/Rooms.antt =====
-- The room: its members, and the throttle of vote snapshots.
use rust_multichat_server.Base.{
  ℕ, zero, suc, ◌+◌, ◌-◌, ◌/◌, ◌≤◌, ◌≡◌, refl, inl, true, false, none, some, [], ◌∷◌, ◌++◌, length,
  get_elem?, arith,
}
use rust_multichat_server.Base.{◌*◌, ◌⊎◌, List, map}
use rust_multichat_server.Protocol.{ServerMsg, vote_snapshot, server}
use rust_multichat_server.Room.{Room, vote_broadcast_throttle_ms, flush_pending_vote_snapshot}
use rust_multichat_server.Room.Throttle.{
  Call, call, calls, last_msg, calls_rate, flush-calls, flush_after_direct,
}
use rust_multichat_server.Room.Race
use rust_multichat_server.Room.Race.{State, Task, Reach, done}
use rust_multichat_server.Room.Pending.{nothing_stranded}
use rust_multichat_server.Room.Settle.{Run, Reach-settles}
use rust_multichat_server.Room.Quiet.{Quiet, still, moves, Quiet-rests}
use rust_multichat_server.Base.{indicator, ltb}
use rust_multichat_server.Room.Refines.{view, call-Run}
use rust_multichat_server.Examples.Data.{room}

abbrev one_vote : ServerMsg ℕ
one_vote = vote_snapshot (1 ∷ 0 ∷ 0 ∷ 0 ∷ []) (100 ∷ 0 ∷ 0 ∷ 0 ∷ [])

abbrev two_votes : ServerMsg ℕ
two_votes = vote_snapshot (2 ∷ 0 ∷ 0 ∷ 0 ∷ []) (100 ∷ 0 ∷ 0 ∷ 0 ∷ [])

-- Two calls within 50 ms of the last broadcast, at 900.
abbrev early : Call ℕ
early = record { msg = one_vote; now_ms = 910; schedule_ms = 910 }

abbrev soon : Call ℕ
soon = record { msg = two_votes; now_ms = 940; schedule_ms = 940 }

abbrev late : Call ℕ
late = record { msg = two_votes; now_ms = 960; schedule_ms = 960 }

calls_rate_example :
    length (calls (early ∷ soon ∷ late ∷ []) room).sent
    ≤ length room.sent + (1000 - room.last_vote_broadcast_ms) / vote_broadcast_throttle_ms
calls_rate_example =
    calls_rate (early ∷ soon ∷ late ∷ []) room 1000 (omega arith, (omega arith, (omega arith, tt)))
      (omega arith)

flush-calls_example :
    ((calls (early ∷ soon ∷ []) room).sent ≡ room.sent)
    × ((flush_pending_vote_snapshot 951 (calls (early ∷ soon ∷ []) room)).sent
        ≡ room.sent ++ server (last_msg one_vote (soon ∷ [])) ∷ [])
    × ((flush_pending_vote_snapshot 951 (calls (early ∷ soon ∷ []) room)).pending_vote_broadcast
        ≡ none)
flush-calls_example = flush-calls early (soon ∷ []) room 951 (omega arith, (omega arith, tt))

-- The snapshot with one vote is parked.
abbrev parked : Room ℕ
parked = record room { pending_vote_broadcast = some one_vote; vote_flush_scheduled = true }

flush_after_direct_example :
    (flush_pending_vote_snapshot 961 (call late parked)).sent
    ≡ parked.sent ++ server two_votes ∷ server one_vote ∷ []
flush_after_direct_example = flush_after_direct one_vote late parked 961 refl (omega arith)

-- One call, that is too early, has parked its snapshot and claimed the timer.
abbrev claimed : State ℕ
claimed = record {
  last = 0;
  pending = some one_vote;
  scheduled = true;
  sent = [];
  tasks = Race.Task.claimed ∷ [];
}

claimed-Reach : Reach claimed
claimed-Reach =
    Race.later
      (Race.later
        (Race.later (Race.later Race.start (Race.call one_vote 10))
          (Race.lose 0 refl (inl (omega arith))))
        (Race.park 0 refl))
      (Race.swap_first 0 refl refl)

-- The timer has run, and its task has sent the snapshot.
abbrev settled : State ℕ
settled = record {
  last = 50;
  pending = none;
  scheduled = false;
  sent = one_vote ∷ [];
  tasks = done ∷ [];
}

settled-Reach : Reach settled
settled-Reach =
    Race.later
      (Race.later
        (Race.later (Race.later (Race.later claimed-Reach (Race.spawn 0 refl)) (Race.wake 0 refl))
          (Race.take_pending 0 refl))
        (Race.store 0 50 refl))
      (Race.send 0 refl)

all_done : (j : ℕ) (t : Task ℕ) → get_elem? settled.tasks j ≡ some t → t ≡ done
all_done zero t e = ground arith
all_done (suc j) t e = ground arith

nothing_stranded_example : (settled.pending ≡ none) × (settled.scheduled ≡ false)
nothing_stranded_example = nothing_stranded settled-Reach all_done

-- The steps from the parked snapshot to its being sent.
claimed-Quiet : Quiet claimed 5 settled
claimed-Quiet =
    moves
      (moves
        (moves (moves (moves still (Race.spawn 0 refl) refl) (Race.wake 0 refl) refl)
          (Race.take_pending 0 refl) refl)
        (Race.store 0 50 refl) refl)
      (Race.send 0 refl) refl

Quiet-rests_example :
    (5 ≤ 8 * length claimed.tasks)
    × (((u : State ℕ) × Race.Step settled u × (length u.tasks ≡ length settled.tasks))
        ⊎ ((settled.pending ≡ none)
            × (settled.scheduled ≡ false)
            × (indicator (ltb 0 (length claimed.tasks)) ≤ length settled.sent)))
Quiet-rests_example = Quiet-rests claimed-Reach claimed-Quiet

Reach-settles_example :
    (n : ℕ) × (t : State ℕ) × Run claimed n t × (t.pending ≡ none) × (t.scheduled ≡ false)
Reach-settles_example = Reach-settles claimed-Reach

call-Run_example :
    (new : List (ServerMsg ℕ)) × ((call early room).sent ≡ room.sent ++ map (λ m. server m) new)
    × ((log : List (ServerMsg ℕ))
        → (w : Task ℕ) × ((w ≡ done) ⊎ (w ≡ Race.Task.sleeping))
          × (n : ℕ) × Run (view room log []) n (view (call early room) (log ++ new) (w ∷ [])))
call-Run_example = call-Run early room []
