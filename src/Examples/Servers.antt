-- ===== src/Examples/Servers.antt =====
-- The accept loop.
use mathlib.Core.Path.{subst}
use rust_multichat_server.Base.{
  ℕ, ◌+◌, ◌<◌, ◌≡◌, ◌↔◌, ◌⊎◌, refl, true, false, [], ◌∷◌, ◌++◌, ◌%◌, ◌^◌, map, count_by, arith,
}
use rust_multichat_server.Protocol.{error}
use rust_multichat_server.Server.{
  Server, accepted, ctrl_c, task_ended, start, run, step, has_returned, is_running, max_connections,
  full_msg,
}
use rust_multichat_server.Server.Capacity.{Inv, run-start-Inv, step_accepted}
use rust_multichat_server.Server.Shutdown.{Waiting, shutdown_returns}
use rust_multichat_server.Examples.Data.{room}

-- Two clients are connected.
abbrev busy : Server ℕ
busy = record {
  available_permits = 498;
  next_id = 3;
  handles = record { id = 1; is_finished = false } ∷ record { id = 2; is_finished = false } ∷ [];
  accepting = true;
  room = room;
  refusals = [];
}

busy_lem : run (accepted ∷ accepted ∷ []) (start room) ≡ busy
unfolding run start
busy_lem = refl

busy-Inv : Inv busy
busy-Inv = subst Inv busy_lem (run-start-Inv (accepted ∷ accepted ∷ []) room (omega arith))

step_accepted_example :
    ((count_by is_running busy.handles < max_connections)
      × (count_by is_running (step accepted busy).handles ≡ count_by is_running busy.handles + 1)
      × ((step accepted busy).refusals ≡ busy.refusals)
      × ((step accepted busy).next_id ≡ (busy.next_id + 1) % 2 ^ 64))
    ⊎ ((count_by is_running busy.handles ≡ max_connections)
        × (step accepted busy ≡ record busy { refusals = busy.refusals ++ error full_msg ∷ [] }))
step_accepted_example = step_accepted busy busy-Inv refl

shutdown_returns_example :
    (has_returned (run (map task_ended (2 ∷ 1 ∷ [])) (step ctrl_c busy)) ≡ true)
    ↔ Waiting (2 ∷ 1 ∷ []) busy.handles
shutdown_returns_example = shutdown_returns (2 ∷ 1 ∷ []) busy busy-Inv refl
