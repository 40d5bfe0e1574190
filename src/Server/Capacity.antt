-- ===== src/Server/Capacity.antt =====
-- The permits of the semaphore, the handles of the tasks, and the ids of the connections.
use rust_multichat_server.Base.{
  ℕ, ◌+◌, ◌%◌, ◌^◌, ◌≤◌, ◌<◌, ◌≡◌, refl, Bool, true, false, List, [], ◌∷◌, ◌++◌, if◌then◌else◌,
  length, lt→ltb, count_by, arith, Bool-cases, ◌⊎◌, ◌∙◌, inl, inr,
}
use rust_multichat_server.Protocol.{error}
use rust_multichat_server.Room.{Room}
use native.Mathlib.Decide.{dec_lt}
use rust_multichat_server.Server.Handles.{
  Fresh, Distinct, pushed, count_by-finish, Distinct-finish, Fresh-finish, length-finish,
  count_by-keep, length-keep, Distinct-keep, Fresh-keep, Fresh-pushed, Distinct-pushed,
  count_by-pushed,
}
use rust_multichat_server.Server.{
  full_msg, max_connections, Server, Event, accepted, accept_failed, ctrl_c, task_ended, is_running,
  runs, start, on_accept, on_ctrl_c, on_task_ended, step, run,
}

pub record Inv {F : Type 0} (s : Server F) : Type 0 where
  pub permits : s.available_permits + count_by is_running s.handles ≡ max_connections
  pub fresh : Fresh s.next_id s.handles
  pub distinct : Distinct s.handles
  pub few : length s.handles ≤ max_connections

module _ {F : Type 0} where
  pub admit-Inv :
      (s : Server F) → Inv s → s.next_id + 1 < 2 ^ 64 → 0 < s.available_permits → Inv (on_accept s)
  unfolding on_accept
  admit-Inv s v small free =
      let hs = pushed s.next_id s.handles in
      let n : (s.next_id + 1) % 2 ^ 64 ≡ s.next_id + 1 = omega arith in
      rw (lt→ltb 0 s.available_permits free) (record {
        permits = omega (arith, count_by-keep hs, count_by-pushed s.next_id s.handles, v.permits);
        fresh = rw n (Fresh-keep _ hs (Fresh-pushed s.next_id _ s.handles (omega arith) v.fresh));
        distinct = Distinct-keep hs (Distinct-pushed s.next_id s.handles v.fresh v.distinct);
        few = omega (arith, length-keep hs, count_by-pushed s.next_id s.handles, v.permits);
      })

  refuse_lem :
      (s : Server F)
      → s.available_permits ≡ 0
      → on_accept s ≡ record s { refusals = s.refusals ++ error full_msg ∷ [] }
  unfolding on_accept
  refuse_lem s none_free = ground arith

  on_accept-Inv : (s : Server F) → Inv s → s.next_id + 1 < 2 ^ 64 → Inv (on_accept s)
  on_accept-Inv s v small = elim (dec_lt 0 s.available_permits) [
    | yes free ↦ admit-Inv s v small free
    | no full ↦
        rw (refuse_lem s (omega arith))
          (record { permits = v.permits; fresh = v.fresh; distinct = v.distinct; few = v.few })
  ]

  pub on_task_ended-Inv : (id : ℕ) (s : Server F) → Inv s → Inv (on_task_ended id s)
  unfolding on_task_ended
  on_task_ended-Inv id s v = elim (Bool-cases (runs id s.handles)) [
    | inl still ↦ rw still (record {
      permits = omega (arith, count_by-finish id s.handles v.distinct still, v.permits);
      fresh = Fresh-finish id s.next_id s.handles v.fresh;
      distinct = Distinct-finish id s.handles v.distinct;
      few = rw (length-finish id s.handles) v.few;
    })
    | inr over ↦ rw over v
  ]

  if-Inv : (b : Bool) (s t : Server F) → Inv s → Inv t → Inv (if b then s else t)
  if-Inv true s t v w = v
  if-Inv false s t v w = w

  on_ctrl_c-Inv : (s : Server F) → Inv s → Inv (on_ctrl_c s)
  unfolding on_ctrl_c
  on_ctrl_c-Inv s v = record {
    permits = v.permits;
    fresh = v.fresh;
    distinct = v.distinct;
    few = v.few;
  }

  step-Inv : (e : Event) (s : Server F) → Inv s → s.next_id + 1 < 2 ^ 64 → Inv (step e s)
  unfolding step
  step-Inv accepted s v small = if-Inv s.accepting (on_accept s) s (on_accept-Inv s v small) v
  step-Inv accept_failed s v small = v
  step-Inv ctrl_c s v small = if-Inv s.accepting (on_ctrl_c s) s (on_ctrl_c-Inv s v) v
  step-Inv (task_ended id) s v small = on_task_ended-Inv id s v

  on_accept-next_id : (s : Server F) → (on_accept s).next_id ≤ s.next_id + 1
  unfolding on_accept
  on_accept-next_id s = ground arith

  step-next_id : (e : Event) (s : Server F) → (step e s).next_id ≤ s.next_id + 1
  unfolding step
  step-next_id accepted s = ground (arith, on_accept-next_id s)
  step-next_id accept_failed s = omega arith
  step-next_id ctrl_c s = ground arith
  step-next_id (task_ended id) s = ground arith

  run-Inv :
      (es : List Event) (s : Server F) → Inv s → s.next_id + length es < 2 ^ 64 → Inv (run es s)
  unfolding run
  run-Inv [] s v small = v
  run-Inv (e ∷ es) s v small =
      run-Inv es (step e s) (step-Inv e s v (omega arith)) (omega (arith, step-next_id e s))

  pub start-Inv : (room : Room F) → Inv (start room)
  unfolding start
  start-Inv room = record { permits = omega arith; fresh = tt; distinct = tt; few = omega arith }

  -- After any run of fewer than 2 ^ 64 - 1 events, the free permits and the client tasks that run
  -- add up to 500, so that never more than 500 connections are served; the ids of the handles that
  -- the server keeps differ and were all handed out before; and it keeps at most 500 handles.
  pub run-start-Inv :
      (es : List Event) (room : Room F) → length es + 1 < 2 ^ 64 → Inv (run es (start room))
  run-start-Inv es room small =
      run-Inv es (start room) (start-Inv room) (unfold start in omega arith)

  pub step-accepting : (s : Server F) → s.accepting ≡ true → step accepted s ≡ on_accept s
  unfolding step
  step-accepting s h = ground arith

  pub admit-counts :
      (s : Server F)
      → 0 < s.available_permits
      → (count_by is_running (on_accept s).handles ≡ count_by is_running s.handles + 1)
        × ((on_accept s).refusals ≡ s.refusals)
        × ((on_accept s).next_id ≡ (s.next_id + 1) % 2 ^ 64)
  unfolding on_accept
  admit-counts s free =
      rw (lt→ltb 0 s.available_permits free) (
        count_by-keep (pushed s.next_id s.handles) ∙ count_by-pushed s.next_id s.handles,
        refl,
        refl,
      )

  -- While the server accepts and its permits add up, a connection is admitted if fewer than 500
  -- tasks run: one more task runs, the next id goes up, modulo 2 ^ 64, and nothing is refused.
  -- Otherwise 500 tasks run, the connection gets the error line, and nothing else changes.
  pub step_accepted :
      (s : Server F)
      → Inv s
      → s.accepting ≡ true
      → ((count_by is_running s.handles < max_connections)
          × (count_by is_running (step accepted s).handles ≡ count_by is_running s.handles + 1)
          × ((step accepted s).refusals ≡ s.refusals)
          × ((step accepted s).next_id ≡ (s.next_id + 1) % 2 ^ 64))
        ⊎ ((count_by is_running s.handles ≡ max_connections)
            × (step accepted s ≡ record s { refusals = s.refusals ++ error full_msg ∷ [] }))
  step_accepted s v h = elim (dec_lt 0 s.available_permits) [
    | yes free ↦
        let (one_more, same, next) = admit-counts s free in
        let e = step-accepting s h in
        inl (omega (arith, v.permits), rw e one_more, rw e same, rw e next)
    | no full ↦ inr (omega (arith, v.permits), step-accepting s h ∙ refuse_lem s (omega arith))
  ]
