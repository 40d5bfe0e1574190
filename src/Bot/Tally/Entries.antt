-- ===== src/Bot/Tally/Entries.antt =====
-- The hash map of snapshots holds each snapshot once, with the number of bots that saw it.
use mathlib.Core.Logic.Or
use mathlib.Core.Path.{subst}
use mathlib.Core.List.{Mem, mem-cons, mem-cons_self, mem-cons_of_mem, not-mem-nil}
use native.Mathlib.Nat.{ℕ_set}
use rust_multichat_server.Base.{
  ℕ, ◌+◌, ◌^◌, ◌<◌, ◌≡◌, refl, Option, none, some, List, [], ◌∷◌, if◌then◌else◌, indicator,
  count_by, length, arith, Bool, true, false, Bool-cases, inl, inr,
}
use rust_multichat_server.Bot.Tally.{
  FickleResult, array_eq, add_entry, add_snapshot, tally_snapshots,
}

pub array_eq_sound : (xs ys : List ℕ) → array_eq xs ys ≡ true → xs ≡ ys
unfolding array_eq
array_eq_sound [] [] h = refl
array_eq_sound [] (y ∷ ys) h = absurd (cc)
array_eq_sound (x ∷ xs) [] h = absurd (cc)
array_eq_sound (x ∷ xs) (y ∷ ys) h = ground (arith, array_eq_sound xs ys)

pub array_eq_refl : (xs : List ℕ) → array_eq xs xs ≡ true
unfolding array_eq
array_eq_refl [] = refl
array_eq_refl (x ∷ xs) = ground (arith, array_eq_refl xs)

pub array_eq_flip : (a b : List ℕ) → array_eq a b ≡ false → array_eq b a ≡ false
array_eq_flip a b h = ground (arith, array_eq_sound b a, array_eq_refl b)

abbrev pub entry_count : List ℕ → List (List ℕ × ℕ) → ℕ
entry_count s [] = 0
entry_count s ((k, n) ∷ es) = if array_eq k s then n else entry_count s es

abbrev pub Absent : List ℕ → List (List ℕ × ℕ) → Type 0
Absent s [] = Unit
Absent s ((k, n) ∷ es) = (array_eq k s ≡ false) × Absent s es

abbrev pub Unique : List (List ℕ × ℕ) → Type 0
Unique [] = Unit
Unique ((k, n) ∷ es) = Absent k es × Unique es

-- Whether a bot saw the snapshot.
abbrev pub saw : List ℕ → Option (List ℕ) → Bool
saw s none = false
saw s (some k) = array_eq k s

-- How many bots saw the snapshot last.
abbrev pub seen_by : List ℕ → List FickleResult → ℕ
seen_by s results = count_by (λ r. saw s r.last_snapshot) results

entry_count-add_entry :
    (s j : List ℕ) (es : List (List ℕ × ℕ))
    → entry_count j es + 1 < 2 ^ 64
    → entry_count j (add_entry s es) ≡ entry_count j es + indicator (array_eq s j)
unfolding add_entry
entry_count-add_entry s j [] h = ground arith
entry_count-add_entry s j ((k, n) ∷ es) h = ground (
  arith,
  entry_count-add_entry s j es,
  array_eq_sound k s,
  array_eq_sound k j,
  array_eq_sound s j,
  array_eq_refl s,
)

entry_count-add_snapshot :
    (o : Option (List ℕ)) (j : List ℕ) (es : List (List ℕ × ℕ))
    → entry_count j es + 1 < 2 ^ 64
    → entry_count j (add_snapshot o es) ≡ entry_count j es + indicator (saw j o)
unfolding add_snapshot
entry_count-add_snapshot none j es h = omega arith
entry_count-add_snapshot (some s) j es h = entry_count-add_entry s j es h

pub entry_count-tally_snapshots :
    (rs : List FickleResult) (j : List ℕ) (es : List (List ℕ × ℕ))
    → entry_count j es + length rs < 2 ^ 64
    → entry_count j (tally_snapshots es rs) ≡ entry_count j es + seen_by j rs
unfolding tally_snapshots
entry_count-tally_snapshots [] j es h = omega arith
entry_count-tally_snapshots (r ∷ rs) j es h =
    let one = entry_count-add_snapshot r.last_snapshot j es (omega arith) in
    let small : entry_count j (add_snapshot r.last_snapshot es) + length rs < 2 ^ 64 =
      bounded (saw j r.last_snapshot) one in
    omega (arith, entry_count-tally_snapshots rs j (add_snapshot r.last_snapshot es) small, one)
  where
    bounded :
        (b : Bool)
        → entry_count j (add_snapshot r.last_snapshot es) ≡ entry_count j es + indicator b
        → entry_count j (add_snapshot r.last_snapshot es) + length rs < 2 ^ 64
    bounded true e = omega arith
    bounded false e = omega arith

Absent-add_entry :
    (s j : List ℕ) (es : List (List ℕ × ℕ))
    → array_eq s j ≡ false
    → Absent j es
    → Absent j (add_entry s es)
unfolding add_entry
Absent-add_entry s j [] h a = (h, tt)
Absent-add_entry s j ((k, n) ∷ es) h a = ground (arith, Absent-add_entry s j es h a.1)

Unique-add_entry : (s : List ℕ) (es : List (List ℕ × ℕ)) → Unique es → Unique (add_entry s es)
unfolding add_entry
Unique-add_entry s [] u = (tt, tt)
Unique-add_entry s ((k, n) ∷ es) u = elim (Bool-cases (array_eq k s)) [
  | inl here ↦ rw here u
  | inr other ↦
      rw other (Absent-add_entry s k es (array_eq_flip k s other) u.0, Unique-add_entry s es u.1)
]

Unique-add_snapshot :
    (o : Option (List ℕ)) (es : List (List ℕ × ℕ)) → Unique es → Unique (add_snapshot o es)
unfolding add_snapshot
Unique-add_snapshot none es u = u
Unique-add_snapshot (some s) es u = Unique-add_entry s es u

pub Unique-tally_snapshots :
    (rs : List FickleResult) (es : List (List ℕ × ℕ)) → Unique es → Unique (tally_snapshots es rs)
unfolding tally_snapshots
Unique-tally_snapshots [] es u = u
Unique-tally_snapshots (r ∷ rs) es u =
    Unique-tally_snapshots rs _ (Unique-add_snapshot r.last_snapshot es u)

-- A snapshot that is counted has its entry.
pub mem-entry_count :
    (s : List ℕ) (es : List (List ℕ × ℕ)) → 0 < entry_count s es → Mem (s, entry_count s es) es
mem-entry_count s [] h = absurd (omega arith)
mem-entry_count s ((k, n) ∷ es) h = elim (Bool-cases (array_eq k s)) [
  | inl here ↦
      rw here (subst (λ x. Mem (x, n) ((k, n) ∷ es)) (array_eq_sound k s here) mem-cons_self)
  | inr other ↦ rw other (mem-cons_of_mem (k, n) (mem-entry_count s es (rw other at h)))
]

Bool-set : IsSet Bool
Bool-set = hlevel

Absent-mem :
    (k : List ℕ) (e : List ℕ × ℕ) (es : List (List ℕ × ℕ))
    → Absent k es
    → Mem e es
    → array_eq k e.0 ≡ false
Absent-mem k e [] a m = absurd (not-mem-nil m)
Absent-mem k e ((j, n) ∷ es) a m =
    Or.elim (Bool-set _ _) (mem-cons.0 m) (λ q. rw q (array_eq_flip j k a.0))
      (Absent-mem k e es a.1)

-- An entry holds the count of its snapshot.
pub entry_count-mem :
    (e : List ℕ × ℕ) (es : List (List ℕ × ℕ)) → Unique es → Mem e es → entry_count e.0 es ≡ e.1
entry_count-mem e [] u m = absurd (not-mem-nil m)
entry_count-mem e ((k, n) ∷ es) u m =
    Or.elim (ℕ_set _ _) (mem-cons.0 m) (λ q. rw (q, array_eq_refl k))
      (λ m'. rw (Absent-mem k e es u.0 m') (entry_count-mem e es u.1 m'))
