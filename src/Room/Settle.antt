-- ===== src/Room/Settle.antt =====
-- The throttle can come to rest: what its tasks have left to do, and a run in which they do it.
use native.Mathlib.Decide.{dec_lt, ℕ_discrete}
use rust_multichat_server.Base.{
  ℕ, zero, suc, ◌+◌, ◌-◌, ◌*◌, ◌≤◌, ◌<◌, ◌≡◌, ◌⊎◌, inl, inr, refl, Bool, false, Option, none, some,
  List, [], ◌∷◌, arith, get_elem?, set, length, length-set, Bool-cases,
}
use rust_multichat_server.Protocol.{ServerMsg}
use rust_multichat_server.Room.{vote_broadcast_throttle_ms}
use rust_multichat_server.Room.Race.{
  Task, loaded, parking, parked, claimed, sleeping, woken, took, sending, done, taken, State, Step,
  call, win, lose, park, swap_first, swap_later, spawn, wake, take_pending, store, send, Reach,
  later,
}
use rust_multichat_server.Room.Pending.{nothing_stranded}

module _ {F : Type 0} where
  -- The most steps that a task still takes.
  abbrev pub rank : Task F → ℕ
  rank (loaded msg now_ms last) = 8
  rank (parking msg) = 7
  rank parked = 6
  rank claimed = 5
  rank sleeping = 4
  rank woken = 3
  rank (took msg) = 2
  rank (sending msg) = 1
  rank done = 0

  abbrev pub load : List (Task F) → ℕ
  load [] = 0
  load (t ∷ ts) = rank t + load ts

  load-set :
      (ts : List (Task F)) (j : ℕ) (v w : Task F)
      → get_elem? ts j ≡ some v
      → load (set ts j w) + rank v ≡ load ts + rank w
  load-set [] j v w e = absurd (cc)
  load-set (t ∷ ts) zero v w e = ground arith
  load-set (t ∷ ts) (suc j) v w e = omega (arith, load-set ts j v w e)

  pub load-le : (ts : List (Task F)) → load ts ≤ 8 * length ts
  load-le [] = omega arith
  load-le (t ∷ ts) = omega (arith, load-le ts, rank-le t)
    where
      rank-le : (t : Task F) → rank t ≤ 8
      rank-le t = ground arith

  -- `n` steps in a row.
  pub data Run (s : State F) : ℕ → State F → Type 0 where
    here : Run s 0 s
    next : {n : ℕ} {t u : State F} → Run s n t → Step t u → Run s (suc n) u

  -- A step that is no call brings one task forward.
  moved :
      (s : State F) (j : ℕ) (v w : Task F)
      → get_elem? s.tasks j ≡ some v
      → rank w < rank v
      → (load (set s.tasks j w) + 9 * length s.tasks + 1
          ≤ load s.tasks + 9 * length (set s.tasks j w))
        × (length s.tasks ≤ length (set s.tasks j w))
  moved s j v w e less = omega (arith, load-set s.tasks j v w e, length-set s.tasks j w)

  rank-taken : (p : Option (ServerMsg F)) → rank (taken p) < 3
  rank-taken none = omega arith
  rank-taken (some msg) = omega arith

  pub Step-load :
      {s t : State F}
      → Step s t
      → (load t.tasks + 9 * length s.tasks + 1 ≤ load s.tasks + 9 * length t.tasks)
        × (length s.tasks ≤ length t.tasks)
  Step-load (call msg now_ms) = omega arith
  Step-load {s} (win j e _ _) = moved s j _ (sending _) e (omega arith)
  Step-load {s} (lose j e _) = moved s j _ (parking _) e (omega arith)
  Step-load {s} (park j e) = moved s j _ parked e (omega arith)
  Step-load {s} (swap_first j e _) = moved s j _ claimed e (omega arith)
  Step-load {s} (swap_later j e _) = moved s j _ done e (omega arith)
  Step-load {s} (spawn j e) = moved s j _ sleeping e (omega arith)
  Step-load {s} (wake j e) = moved s j _ woken e (omega arith)
  Step-load {s} (take_pending j e) = moved s j _ (taken s.pending) e (rank-taken s.pending)
  Step-load {s} (store j now_ms e) = moved s j _ (sending _) e (omega arith)
  Step-load {s} (send j e) = moved s j _ done e (omega arith)

  -- Either every task is done, or there is one that is not.
  pub unfinished :
      (ts : List (Task F))
      → ((j : ℕ) (t : Task F) → get_elem? ts j ≡ some t → t ≡ done)
        ⊎ ((j : ℕ) × (t : Task F) × (get_elem? ts j ≡ some t) × (0 < rank t))
  unfinished [] = inl (λ j t e. absurd (cc))
  unfinished (done ∷ ts) = elim (unfinished ts) [
    | inl all ↦ inl (from_tail all)
    | inr (j, t, e, r) ↦ inr (suc j, t, e, r)
  ]
    where
      from_tail :
          ((j : ℕ) (t : Task F) → get_elem? ts j ≡ some t → t ≡ done)
          → (j : ℕ) (t : Task F) → get_elem? (done ∷ ts) j ≡ some t
          → t ≡ done
      from_tail all zero t e = ground arith
      from_tail all (suc j) t e = all j t e
  unfinished (loaded msg now_ms last ∷ ts) = inr (zero, _, refl, omega arith)
  unfinished (parking msg ∷ ts) = inr (zero, _, refl, omega arith)
  unfinished (parked ∷ ts) = inr (zero, _, refl, omega arith)
  unfinished (claimed ∷ ts) = inr (zero, _, refl, omega arith)
  unfinished (sleeping ∷ ts) = inr (zero, _, refl, omega arith)
  unfinished (woken ∷ ts) = inr (zero, _, refl, omega arith)
  unfinished (took msg ∷ ts) = inr (zero, _, refl, omega arith)
  unfinished (sending msg ∷ ts) = inr (zero, _, refl, omega arith)

  -- A step that brings a task forward, and adds none.
  abbrev pub Forward : State F → Type 0
  Forward s =
      (t : State F) × Step s t × (load t.tasks < load s.tasks) × (length t.tasks ≡ length s.tasks)

  forward :
      (s : State F) (j : ℕ) (v w : Task F) (last : ℕ) (pending : Option (ServerMsg F))
      (scheduled : Bool) (sent : List (ServerMsg F))
      → get_elem? s.tasks j ≡ some v
      → rank w < rank v
      → Step s (record {
        last = last;
        pending = pending;
        scheduled = scheduled;
        sent = sent;
        tasks = set s.tasks j w;
      })
      → Forward s
  forward s j v w last pending scheduled sent e less st =
      (_, st, omega (arith, load-set s.tasks j v w e), length-set s.tasks j w)

  try_send :
      (s : State F) (j : ℕ) (msg : ServerMsg F) (now_ms last : ℕ)
      → get_elem? s.tasks j ≡ some (loaded msg now_ms last)
      → Forward s
  try_send s j msg now_ms last e = elim (dec_lt (now_ms - last) vote_broadcast_throttle_ms) [
    | yes early ↦ forward s j _ (parking msg) _ _ _ _ e (omega arith) (lose j e (inl early))
    | no late ↦ elim (ℕ_discrete s.last last) [
      | yes same ↦ forward s j _ (sending msg) _ _ _ _ e (omega arith) (win j e (omega arith) same)
      | no other ↦ forward s j _ (parking msg) _ _ _ _ e (omega arith) (lose j e (inr other))
    ]
  ]

  pub progress :
      (s : State F) (j : ℕ) (t : Task F) → get_elem? s.tasks j ≡ some t → 0 < rank t → Forward s
  progress s j (loaded msg now_ms last) e r = try_send s j msg now_ms last e
  progress s j (parking msg) e r = forward s j _ parked _ _ _ _ e (omega arith) (park j e)
  progress s j parked e r = elim (Bool-cases s.scheduled) [
    | inl set ↦ forward s j _ done _ _ _ _ e (omega arith) (swap_later j e set)
    | inr clear ↦ forward s j _ claimed _ _ _ _ e (omega arith) (swap_first j e clear)
  ]
  progress s j claimed e r = forward s j _ sleeping _ _ _ _ e (omega arith) (spawn j e)
  progress s j sleeping e r = forward s j _ woken _ _ _ _ e (omega arith) (wake j e)
  progress s j woken e r =
      forward s j _ (taken s.pending) _ _ _ _ e (rank-taken s.pending) (take_pending j e)
  progress s j (took msg) e r = forward s j _ (sending msg) _ _ _ _ e (omega arith) (store j 0 e)
  progress s j (sending msg) e r = forward s j _ done _ _ _ _ e (omega arith) (send j e)
  progress s j done e r = absurd (omega arith)

  abbrev Settled : State F → Type 0
  Settled s = (n : ℕ) × (t : State F) × Run s n t × (t.pending ≡ none) × (t.scheduled ≡ false)

  Run-first : {s t u : State F} {n : ℕ} → Step s t → Run t n u → Run s (suc n) u
  Run-first st here = next here st
  Run-first st (next r st') = next (Run-first st r) st'

  settle : (fuel : ℕ) (s : State F) → load s.tasks < fuel → Reach s → Settled s
  settle zero s f r = absurd (omega arith)
  settle (suc fuel) s f r = elim (unfinished s.tasks) [
    | inl all ↦ let (p, q) = nothing_stranded r all in (0, s, here, p, q)
    | inr (j, t, e, rk) ↦
        let (u, st, less, _) = progress s j t e rk in
        let (n, v, run, p, q) = settle fuel u (omega arith) (later r st) in
        (suc n, v, Run-first st run, p, q)
  ]

  -- From every state that an interleaving of the throttle reaches, a run leads on to a state in
  -- which no snapshot waits and no flush is scheduled.
  pub Reach-settles :
      {s : State F}
      → Reach s
      → (n : ℕ) × (t : State F) × Run s n t × (t.pending ≡ none) × (t.scheduled ≡ false)
  Reach-settles {s} r = settle (suc (load s.tasks)) s (omega arith) r
