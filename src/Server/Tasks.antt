-- ===== src/Server/Tasks.antt =====
-- Which tasks run after a connection is admitted, and after a task ends.
use rust_multichat_server.Base.{ℕ, ◌+◌, ◌<◌, ◌≡◌, refl, true, false, count_by, ◌==◌, lt→ltb, arith}
use rust_multichat_server.Server.{Server, is_running, runs, on_accept, on_task_ended}
use rust_multichat_server.Server.Handles.{
  runs-keep, runs-pushed, runs-pushed_new, runs-finish, count_by-finish,
}
use rust_multichat_server.Server.Capacity
use rust_multichat_server.Server.Capacity.{
  admit-Inv, on_task_ended-Inv, start-Inv, step-accepting, admit-counts,
}

module _ {F : Type 0} where
  pub accept_runs :
      (v : Server F) (k : ℕ)
      → 0 < v.available_permits
      → runs k v.handles ≡ true
      → runs k (on_accept v).handles ≡ true
  unfolding on_accept
  accept_runs v k free r =
      rw (lt→ltb 0 v.available_permits free) (runs-keep k _ (runs-pushed v.next_id k v.handles r))

  pub accept_runs_new :
      (v : Server F)
      → Capacity.Inv v
      → 0 < v.available_permits
      → runs v.next_id (on_accept v).handles ≡ true
  unfolding on_accept
  accept_runs_new v i free =
      rw (lt→ltb 0 v.available_permits free)
        (runs-keep v.next_id _ (runs-pushed_new v.next_id v.handles i.fresh))

  pub accept_same : (v : Server F) → ((on_accept v).accepting ≡ v.accepting)
  unfolding on_accept
  accept_same v = ground arith

  -- The end of a task that runs.
  pub task_ended-runs :
      (v : Server F) (id : ℕ)
      → Capacity.Inv v
      → runs id v.handles ≡ true
      → (count_by is_running (on_task_ended id v).handles + 1 ≡ count_by is_running v.handles)
        × ((k : ℕ) → (id == k) ≡ false → runs k (on_task_ended id v).handles ≡ runs k v.handles)
        × ((on_task_ended id v).accepting ≡ v.accepting)
        × ((on_task_ended id v).next_id ≡ v.next_id)
        × ((on_task_ended id v).refusals ≡ v.refusals)
  unfolding on_task_ended
  task_ended-runs v id i r = rw r (
    count_by-finish id v.handles i.distinct r,
    λ k d. runs-finish id k v.handles d,
    refl,
    refl,
    refl,
  )
