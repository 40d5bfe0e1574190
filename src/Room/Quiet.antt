-- ===== src/Room/Quiet.antt =====
-- The throttle once its calls have stopped: it comes to rest however its tasks are interleaved.
use rust_multichat_server.Base.{
  ℕ, suc, ◌+◌, ◌*◌, ◌≤◌, ◌<◌, ◌≡◌, ◌⊎◌, inl, inr, refl, Bool, true, false, Option, none, some, List,
  [], ◌∷◌, arith, get_elem?, set, length, length-append, length-set, ltb, Bool-cases, count_by,
  count_by-set, indicator,
}
use rust_multichat_server.Protocol.{ServerMsg}
use rust_multichat_server.Room.Race.{
  Task, loaded, parking, parked, claimed, sleeping, woken, took, sending, done, taken, State, Step,
  call, win, lose, park, swap_first, swap_later, spawn, wake, take_pending, store, send, Reach,
  start, later,
}
use rust_multichat_server.Room.Pending.{nothing_stranded}
use rust_multichat_server.Room.Settle.{load, load-le, Step-load, unfinished, progress}

module _ {F : Type 0} where
  -- `n` steps in a row, of which none is a call.
  pub data Quiet (s : State F) : ℕ → State F → Type 0 where
    still : Quiet s 0 s
    moves :
        {n : ℕ} {t u : State F}
        → Quiet s n t
        → Step t u
        → length u.tasks ≡ length t.tasks
        → Quiet s (suc n) u

  Quiet-load :
      {s t : State F} {n : ℕ}
      → Quiet s n t
      → (n + load t.tasks ≤ load s.tasks) × (length t.tasks ≡ length s.tasks)
  Quiet-load still = omega arith
  Quiet-load (moves q st same) = omega (arith, Quiet-load q, Step-load st)

  Quiet-Reach : {s t : State F} {n : ℕ} → Reach s → Quiet s n t → Reach t
  Quiet-Reach r still = r
  Quiet-Reach r (moves q st same) = later (Quiet-Reach r q) st

  -- Whether a task holds a snapshot that it is to park or to send.
  abbrev carries : Task F → Bool
  carries (loaded msg now_ms last) = true
  carries (parking msg) = true
  carries (took msg) = true
  carries (sending msg) = true
  carries _ = false

  abbrev is_parked : Option (ServerMsg F) → ℕ
  is_parked none = 0
  is_parked (some msg) = 1

  -- The snapshots that are held, parked or sent.
  abbrev held : State F → ℕ
  held s = count_by carries s.tasks + is_parked s.pending + length s.sent

  moved :
      (s : State F) (j : ℕ) (v w : Task F)
      → get_elem? s.tasks j ≡ some v
      → count_by carries (set s.tasks j w) + indicator (carries v)
        ≡ count_by carries s.tasks + indicator (carries w)
  moved s j v w e = count_by-set carries s.tasks j v w e

  carries-taken : (p : Option (ServerMsg F)) → indicator (carries (taken p)) ≡ is_parked p
  carries-taken none = refl
  carries-taken (some msg) = refl

  -- No step loses the last snapshot.
  Step-held : {s t : State F} → Step s t → 0 < held s → 0 < held t
  Step-held (call msg now_ms) h = omega arith
  Step-held {s} (win j e _ _) h = omega (arith, moved s j _ (sending _) e)
  Step-held {s} (lose j e _) h = omega (arith, moved s j _ (parking _) e)
  Step-held {s} (park j e) h = omega (arith, moved s j _ parked e)
  Step-held {s} (swap_first j e _) h = omega (arith, moved s j _ claimed e)
  Step-held {s} (swap_later j e _) h = omega (arith, moved s j _ done e)
  Step-held {s} (spawn j e) h = omega (arith, moved s j _ sleeping e)
  Step-held {s} (wake j e) h = omega (arith, moved s j _ woken e)
  Step-held {s} (take_pending j e) h =
      omega (arith, moved s j _ (taken s.pending) e, carries-taken s.pending)
  Step-held {s} (store j now_ms e) h = omega (arith, moved s j _ (sending _) e)
  Step-held {s} (send j e) h = omega (arith, moved s j _ done e, length-append s.sent _)

  Step-length : {s t : State F} → Step s t → (0 < held t) ⊎ (length t.tasks ≡ length s.tasks)
  Step-length (call msg now_ms) = inl (omega arith)
  Step-length {s} (win j _ _ _) = inr (length-set s.tasks j (sending _))
  Step-length {s} (lose j _ _) = inr (length-set s.tasks j (parking _))
  Step-length {s} (park j _) = inr (length-set s.tasks j parked)
  Step-length {s} (swap_first j _ _) = inr (length-set s.tasks j claimed)
  Step-length {s} (swap_later j _ _) = inr (length-set s.tasks j done)
  Step-length {s} (spawn j _) = inr (length-set s.tasks j sleeping)
  Step-length {s} (wake j _) = inr (length-set s.tasks j woken)
  Step-length {s} (take_pending j _) = inr (length-set s.tasks j (taken s.pending))
  Step-length {s} (store j now_ms _) = inr (length-set s.tasks j (sending _))
  Step-length {s} (send j _) = inr (length-set s.tasks j done)

  -- Once there has been a call, a snapshot is held, parked or sent.
  Reach-held : {s : State F} → Reach s → 0 < length s.tasks → 0 < held s
  Reach-held start h = absurd (omega arith)
  Reach-held (later r st) h = elim (Step-length st) [
    | inl more ↦ more
    | inr same ↦ Step-held st (Reach-held r (omega (arith, same)))
  ]

  abbrev pub AllDone : List (Task F) → Type 0
  AllDone ts = (j : ℕ) (t : Task F) → get_elem? ts j ≡ some t → t ≡ done

  none_carried : (ts : List (Task F)) → AllDone ts → count_by carries ts ≡ 0
  none_carried [] all = refl
  none_carried (t ∷ ts) all =
      let ih = none_carried ts (λ j u e. all (suc j) u e) in rw (all 0 t refl) (omega (arith, ih))

  -- Where every task is done, the throttle is at rest.
  AllDone-rests :
      {s t : State F} {n : ℕ}
      → Reach s
      → Quiet s n t
      → AllDone t.tasks
      → (t.pending ≡ none)
        × (t.scheduled ≡ false)
        × (indicator (ltb 0 (length s.tasks)) ≤ length t.sent)
  AllDone-rests {s} {t} r q all =
      let reach = Quiet-Reach r q in
      let (parked_none, unscheduled) = nothing_stranded reach all in
      let none_parked : is_parked t.pending ≡ 0 = rw parked_none refl in
      let sent : 0 < length t.tasks → 0 < length t.sent = λ some_task.
        omega (arith, Reach-held reach some_task, none_carried t.tasks all, none_parked) in
      (
        parked_none,
        unscheduled,
        elim (Bool-cases (ltb 0 (length s.tasks))) [
          | inl called ↦ rw called (sent (ground (arith, Quiet-load q)))
          | inr silent ↦ rw silent (omega arith)
        ],
      )

  -- Once the calls of the throttle stop, every interleaving of its tasks comes to rest: it has at
  -- most 8 steps for each task, and after any of them either another step that is no call can be
  -- taken, or no snapshot waits and no flush is scheduled, so that the next call is free to schedule
  -- one, and if there was a call at all a snapshot has been sent.
  pub Quiet-rests :
      {s t : State F} {n : ℕ}
      → Reach s
      → Quiet s n t
      → (n ≤ 8 * length s.tasks)
        × (((u : State F) × Step t u × (length u.tasks ≡ length t.tasks))
            ⊎ ((t.pending ≡ none)
                × (t.scheduled ≡ false)
                × (indicator (ltb 0 (length s.tasks)) ≤ length t.sent)))
  Quiet-rests {s} {t} r q = (
    omega (arith, Quiet-load q, load-le s.tasks),
    elim (unfinished t.tasks) [
      | inl all ↦ inr (AllDone-rests r q all)
      | inr (j, task, e, rk) ↦ let (u, st, _, same) = progress t j task e rk in inl (u, st, same)
    ],
  )
