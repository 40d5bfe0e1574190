-- ===== src/Room/Pending.antt =====
-- No interleaving of the throttle strands a snapshot or lets two flush tasks sleep at once.
use rust_multichat_server.Base.{
  ℕ, suc, ◌+◌, ◌≤◌, ◌≡◌, refl, Bool, true, false, Option, none, some, List, [], ◌∷◌, arith,
  get_elem?, set, indicator, count_by, count_by-set,
}
use rust_multichat_server.Protocol.{ServerMsg}
use rust_multichat_server.Room.Race.{
  Task, loaded, parking, parked, claimed, sleeping, woken, took, sending, done, taken, State, Step,
  call, win, lose, park, swap_first, swap_later, spawn, wake, take_pending, store, send, Reach,
  start, later,
}

module _ {F : Type 0} where
  abbrev pub is_some : Option (ServerMsg F) → Bool
  is_some none = false
  is_some (some _) = true

  -- A task that is about to flush, from the claim on until it clears the flag.
  abbrev pub holds_timer : Task F → Bool
  holds_timer claimed = true
  holds_timer sleeping = true
  holds_timer _ = false

  -- A task that will still schedule a flush, or take the pending snapshot.
  abbrev pub attends : Task F → Bool
  attends parked = true
  attends woken = true
  attends _ = false

  abbrev pub is_done : Task F → Bool
  is_done done = true
  is_done _ = false

  pub record Inv (s : State F) : Type 0 where
    pub one_timer : count_by holds_timer s.tasks ≡ indicator s.scheduled
    pub attended : indicator (is_some s.pending) ≤ indicator s.scheduled + count_by attends s.tasks

  -- The two counts after task `j` has gone from `v` to `w`.
  record Counted (s : State F) (j : ℕ) (v w : Task F) : Type 0 where
    timers :
        count_by holds_timer (set s.tasks j w) + indicator (holds_timer v)
        ≡ count_by holds_timer s.tasks + indicator (holds_timer w)
    attendants :
        count_by attends (set s.tasks j w) + indicator (attends v)
        ≡ count_by attends s.tasks + indicator (attends w)

  counted : (s : State F) (j : ℕ) (v w : Task F) → get_elem? s.tasks j ≡ some v → Counted s j v w
  counted s j v w e = record {
    timers = count_by-set holds_timer s.tasks j v w e;
    attendants = count_by-set attends s.tasks j v w e;
  }

  Step-Inv : {s t : State F} → Step s t → Inv s → Inv t
  Step-Inv (call msg now_ms) v = ground arith
  Step-Inv {s} (win j {msg} {now_ms} {last} e _ _) v =
      let k = counted s j (loaded msg now_ms last) (sending msg) e in ground arith
  Step-Inv {s} (lose j {msg} {now_ms} {last} e _) v =
      let k = counted s j (loaded msg now_ms last) (parking msg) e in ground arith
  Step-Inv {s} (park j {msg} e) v = let k = counted s j (parking msg) parked e in ground arith
  Step-Inv {s} (swap_first j e unset) v = let k = counted s j parked claimed e in ground arith
  Step-Inv {s} (swap_later j e already) v = let k = counted s j parked done e in ground arith
  Step-Inv {s} (spawn j e) v = let k = counted s j claimed sleeping e in ground arith
  Step-Inv {s} (wake j e) v = let k = counted s j sleeping woken e in ground arith
  Step-Inv {s} (take_pending j e) v = let k = counted s j woken (taken s.pending) e in ground arith
  Step-Inv {s} (store j now_ms {msg} e) v =
      let k = counted s j (took msg) (sending msg) e in ground arith
  Step-Inv {s} (send j {msg} e) v = let k = counted s j (sending msg) done e in ground arith

  Reach-Inv : {s : State F} → Reach s → Inv s
  Reach-Inv start = record { one_timer = refl; attended = omega arith }
  Reach-Inv (later r st) = Step-Inv st (Reach-Inv r)

  all_done-count :
      (p : Task F → Bool) (ts : List (Task F))
      → p done ≡ false
      → ((j : ℕ) (t : Task F) → get_elem? ts j ≡ some t → t ≡ done)
      → count_by p ts ≡ 0
  all_done-count p [] e h = refl
  all_done-count p (t ∷ ts) e h =
      rw (h 0 t refl, e) (omega (arith, all_done-count p ts e (λ j u k. h (suc j) u k)))

  -- In every state that any interleaving of calls and flushes reaches, at most one flush task is
  -- spawned or about to be, exactly when the flag says so; and while a snapshot is pending, some
  -- task is still to flush, to schedule a flush or to take it.
  pub pending_attended :
      {s : State F}
      → Reach s
      → (count_by holds_timer s.tasks ≤ 1)
        × (count_by holds_timer s.tasks ≡ indicator s.scheduled)
        × (indicator (is_some s.pending) ≤ count_by holds_timer s.tasks + count_by attends s.tasks)
  pending_attended {s} r =
      let v = Reach-Inv r in
      (bounded s.scheduled v.one_timer, v.one_timer, omega (arith, v.one_timer, v.attended))
    where
      bounded :
          (b : Bool) → count_by holds_timer s.tasks ≡ indicator b → count_by holds_timer s.tasks ≤ 1
      bounded true e = omega arith
      bounded false e = omega arith

  -- When every task of a reachable state has run to its end, no snapshot is left pending and the
  -- flag is clear, so that the next parked snapshot schedules a flush again.
  pub nothing_stranded :
      {s : State F}
      → Reach s
      → ((j : ℕ) (t : Task F) → get_elem? s.tasks j ≡ some t → t ≡ done)
      → (s.pending ≡ none) × (s.scheduled ≡ false)
  nothing_stranded {s} r h =
      let v = Reach-Inv r in
      let timers : count_by holds_timer s.tasks ≡ 0 = all_done-count holds_timer s.tasks refl h in
      let attendants : count_by attends s.tasks ≡ 0 = all_done-count attends s.tasks refl h in
      (
        empty s.pending (omega (arith, v.attended, v.one_timer)),
        clear s.scheduled (omega (arith, v.one_timer)),
      )
    where
      empty : (o : Option (ServerMsg F)) → indicator (is_some o) ≤ 0 → o ≡ none
      empty none e = refl
      empty (some m) e = absurd (omega arith)

      clear : (b : Bool) → indicator b ≡ 0 → b ≡ false
      clear true e = absurd (omega arith)
      clear false e = refl
