-- ===== src/Server/Shutdown.antt =====
-- The graceful shutdown at SIGINT.
use rust_multichat_server.Base.{
  ℕ, ◌≡◌, ◌↔◌, refl, Bool, true, false, List, [], ◌∷◌, ◌⊎◌, inl, inr, if◌then◌else◌, ◌==◌, arith,
  Bool-cases, map, ==_iff,
}
use rust_multichat_server.Protocol.{shutdown}
use rust_multichat_server.Room.{send}
use rust_multichat_server.Server.{
  Handle, Server, Event, accepted, accept_failed, ctrl_c, task_ended, finish, runs, on_ctrl_c,
  on_task_ended, step, run, all_finished, has_returned,
}
use rust_multichat_server.Server.Handles.{NotIn, NotIn-eq, Distinct, Distinct-finish}
use rust_multichat_server.Server.Capacity.{Inv}

-- Every task is finished or has its end among the ids to come.
abbrev pub contains : List ℕ → ℕ → Bool
contains [] a = false
contains (x ∷ xs) a = if x == a then true else contains xs a

abbrev pub Waiting : List ℕ → List Handle → Type 0
Waiting ids [] = Unit
Waiting ids (h ∷ hs) = ((h.is_finished ≡ true) ⊎ (contains ids h.id ≡ true)) × Waiting ids hs

Waiting-nil : (hs : List Handle) → Waiting [] hs → all_finished hs ≡ true
unfolding all_finished
Waiting-nil [] w = refl
Waiting-nil (h ∷ hs) w = ground (arith, Waiting-nil hs w.1)

Waiting-finish :
    (id : ℕ) (ids : List ℕ) (hs : List Handle) → Waiting (id ∷ ids) hs → Waiting ids (finish id hs)
unfolding finish
Waiting-finish id ids [] w = tt
Waiting-finish id ids (h ∷ hs) w = ground (arith, Waiting-finish id ids hs w.1)

Waiting-NotIn :
    (id : ℕ) (ids : List ℕ) (hs : List Handle)
    → NotIn id hs
    → Waiting (id ∷ ids) hs
    → Waiting ids hs
Waiting-NotIn id ids [] n w = tt
Waiting-NotIn id ids (h ∷ hs) n w = ground (arith, Waiting-NotIn id ids hs n.1 w.1)

Waiting-over :
    (id : ℕ) (ids : List ℕ) (hs : List Handle)
    → Distinct hs
    → runs id hs ≡ false
    → Waiting (id ∷ ids) hs
    → Waiting ids hs
unfolding runs
Waiting-over id ids [] d r w = tt
Waiting-over id ids (h ∷ hs) d r w = elim (Bool-cases (h.id == id)) [
  | inl here ↦
      let same : h.id ≡ id = (==_iff h.id id).0 here in
      (inl (ground arith), Waiting-NotIn id ids hs (NotIn-eq h.id id hs same d.0) w.1)
  | inr other ↦ ground (arith, Waiting-over id ids hs d.1)
]

nil-Waiting : (hs : List Handle) → all_finished hs ≡ true → Waiting [] hs
unfolding all_finished
nil-Waiting [] e = tt
nil-Waiting (h ∷ hs) e = (ground arith, nil-Waiting hs (ground arith))

finish-Waiting :
    (id : ℕ) (ids : List ℕ) (hs : List Handle) → Waiting ids (finish id hs) → Waiting (id ∷ ids) hs
unfolding finish
finish-Waiting id ids [] w = tt
finish-Waiting id ids (h ∷ hs) w = elim (Bool-cases (h.id == id)) [
  | inl here ↦
      let w' = (rw (finish, here) at w) in (inr (ground arith), finish-Waiting id ids hs w'.1)
  | inr other ↦ let w' = (rw (finish, other) at w) in (ground arith, finish-Waiting id ids hs w'.1)
]

weaken-Waiting : (id : ℕ) (ids : List ℕ) (hs : List Handle) → Waiting ids hs → Waiting (id ∷ ids) hs
weaken-Waiting id ids [] w = tt
weaken-Waiting id ids (h ∷ hs) w = (ground arith, weaken-Waiting id ids hs w.1)

module _ {F : Type 0} where
  -- What the ends of tasks change.
  record Drains (s t : Server F) : Type 0 where
    accepting : t.accepting ≡ s.accepting
    room : t.room ≡ s.room
    refusals : t.refusals ≡ s.refusals
    next_id : t.next_id ≡ s.next_id

  ended-Drains : (id : ℕ) (s : Server F) → Drains s (on_task_ended id s)
  unfolding on_task_ended
  ended-Drains id s = ground arith

  step-Drains : (e : Event) (s : Server F) → s.accepting ≡ false → Drains s (step e s)
  unfolding step
  step-Drains accepted s h = ground arith
  step-Drains accept_failed s h = ground arith
  step-Drains ctrl_c s h = ground arith
  step-Drains (task_ended id) s h = ended-Drains id s

  run-Drains : (es : List Event) (s : Server F) → s.accepting ≡ false → Drains s (run es s)
  unfolding run
  run-Drains [] s h = ground arith
  run-Drains (e ∷ es) s h = ground (arith, step-Drains e s h, run-Drains es (step e s))

  step-ctrl_c : (s : Server F) → s.accepting ≡ true → step ctrl_c s ≡ on_ctrl_c s
  unfolding step
  step-ctrl_c s h = ground arith

  -- SIGINT sends the shutdown event to the room, and whatever comes after it, the server sends
  -- nothing more, admits and refuses no connection and does not accept again.
  pub run-ctrl_c :
      (es : List Event) (s : Server F)
      → s.accepting ≡ true
      → ((run es (step ctrl_c s)).room ≡ send shutdown s.room)
        × ((run es (step ctrl_c s)).next_id ≡ s.next_id)
        × ((run es (step ctrl_c s)).refusals ≡ s.refusals)
        × ((run es (step ctrl_c s)).accepting ≡ false)
  unfolding on_ctrl_c
  run-ctrl_c es s h =
      let d = run-Drains es (on_ctrl_c s) refl in
      let e = step-ctrl_c s h in (rw e d.room, rw e d.next_id, rw e d.refusals, rw e d.accepting)

  ended-Waiting :
      (id : ℕ) (ids : List ℕ) (s : Server F)
      → Distinct s.handles
      → Waiting (id ∷ ids) s.handles
      → Distinct (on_task_ended id s).handles × Waiting ids (on_task_ended id s).handles
  unfolding on_task_ended
  ended-Waiting id ids s d w = elim (Bool-cases (runs id s.handles)) [
    | inl still ↦ rw still (Distinct-finish id s.handles d, Waiting-finish id ids s.handles w)
    | inr over ↦ rw over (d, Waiting-over id ids s.handles d over w)
  ]

  run-Waiting :
      (ids : List ℕ) (s : Server F)
      → Distinct s.handles
      → Waiting ids s.handles
      → all_finished (run (map task_ended ids) s).handles ≡ true
  unfolding run
  run-Waiting [] s d w = Waiting-nil s.handles w
  run-Waiting (id ∷ ids) s d w =
      let (d', w') = ended-Waiting id ids s d w in
      run-Waiting ids (step (task_ended id) s) (unfold step in d') (unfold step in w')

  still_Waiting :
      (ids : List ℕ) (s : Server F)
      → all_finished (run (map task_ended ids) s).handles ≡ true
      → Waiting ids s.handles
  unfolding run step on_task_ended
  still_Waiting [] s e = nil-Waiting s.handles e
  still_Waiting (id ∷ ids) s e =
      let w = still_Waiting ids (on_task_ended id s) e in
      elim (Bool-cases (runs id s.handles)) [
        | inl still ↦ finish-Waiting id ids s.handles (rw (on_task_ended, still) at w)
        | inr over ↦ weaken-Waiting id ids s.handles (rw (on_task_ended, over) at w)
      ]

  -- After SIGINT the server waits for its tasks, and for them only: when some tasks have ended, in
  -- any order, it has returned if and only if each task that still ran at SIGINT is one of them.
  pub shutdown_returns :
      (ids : List ℕ) (s : Server F)
      → Inv s
      → s.accepting ≡ true
      → (has_returned (run (map task_ended ids) (step ctrl_c s)) ≡ true) ↔ Waiting ids s.handles
  unfolding has_returned
  shutdown_returns ids s v h =
      let stopped = (run-ctrl_c (map task_ended ids) s h).3 in
      let waits : has_returned (run (map task_ended ids) (step ctrl_c s)) ≡ true
          → Waiting ids s.handles =
        λ e.
          let all : all_finished (run (map task_ended ids) (on_ctrl_c s)).handles ≡ true =
            rw (stopped, step-ctrl_c s h) at e in
          unfold on_ctrl_c in still_Waiting ids (on_ctrl_c s) all in
      let returns : Waiting ids s.handles
          → has_returned (run (map task_ended ids) (step ctrl_c s)) ≡ true =
        λ w.
          let drained =
            run-Waiting ids (on_ctrl_c s) (unfold on_ctrl_c in v.distinct)
              (unfold on_ctrl_c in w) in
          rw (stopped, step-ctrl_c s h) drained in
      (waits, returns)
