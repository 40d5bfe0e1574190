-- ===== src/Bot/Allocate/Order.antt =====
-- The order in which `allocate` gives out the remainder: a larger ratio first, and of equal ratios
-- the earlier entry.
use rust_multichat_server.Base.{
  ℕ, zero, suc, ◌+◌, ◌≤◌, ◌<◌, ◌≡◌, ◌⊎◌, inl, inr, refl, List, [], ◌∷◌, take, count_by, indicator,
  if◌then◌else◌, leb, ◌==◌, Bool-cases, arith, ltb,
}
use rust_multichat_server.Bot.Allocate.{Share, indices_from, ratio_at, insert_sorted, sort_indices}

-- How often an index is in a list.
abbrev pub times : ℕ → List ℕ → ℕ
times k is = count_by (λ i. i == k) is

pub times-take-le : (k n : ℕ) (is : List ℕ) → times k (take n is) ≤ times k is
times-take-le k zero is = omega arith
times-take-le k (suc n) [] = omega arith
times-take-le k (suc n) (i ∷ is) = omega (arith, times-take-le k n is)

module _ (shares : List Share) where
  -- Entry `i` is served before entry `j`, or is `j`.
  abbrev pub Before : ℕ → ℕ → Type 0
  Before i j =
      (ratio_at shares j < ratio_at shares i) ⊎ ((ratio_at shares j ≡ ratio_at shares i) × (i ≤ j))

  abbrev pub BeforeAll : ℕ → List ℕ → Type 0
  BeforeAll i [] = Unit
  BeforeAll i (j ∷ js) = Before i j × BeforeAll i js

  abbrev pub Ordered : List ℕ → Type 0
  Ordered [] = Unit
  Ordered (i ∷ is) = BeforeAll i is × Ordered is

  abbrev Below : ℕ → List ℕ → Type 0
  Below i [] = Unit
  Below i (j ∷ js) = (i < j) × Below i js

  BeforeAll-trans : (i j : ℕ) (js : List ℕ) → Before i j → BeforeAll j js → BeforeAll i js
  BeforeAll-trans i j [] b a = tt
  BeforeAll-trans i j (k ∷ js) b a = (grind arith, BeforeAll-trans i j js b a.1)

  BeforeAll-insert_sorted :
      (k i : ℕ) (js : List ℕ)
      → Before k i
      → BeforeAll k js
      → BeforeAll k (insert_sorted shares i js)
  unfolding insert_sorted
  BeforeAll-insert_sorted k i [] b a = (b, tt)
  BeforeAll-insert_sorted k i (j ∷ js) b a = ground (arith, BeforeAll-insert_sorted k i js b a.1)

  Ordered-insert_sorted :
      (i : ℕ) (js : List ℕ) → Below i js → Ordered js → Ordered (insert_sorted shares i js)
  unfolding insert_sorted
  Ordered-insert_sorted i [] l o = (tt, tt)
  Ordered-insert_sorted i (j ∷ js) l o =
      elim (Bool-cases (leb (ratio_at shares j) (ratio_at shares i))) [
        | inl more ↦
            let b : Before i j = ground arith in rw more ((b, BeforeAll-trans i j js b o.0), o)
        | inr less ↦
            let b : Before j i = ground arith in
            rw less (BeforeAll-insert_sorted j i js b o.0, Ordered-insert_sorted i js l.1 o.1)
      ]

  Below-insert_sorted :
      (k i : ℕ) (js : List ℕ) → k < i → Below k js → Below k (insert_sorted shares i js)
  unfolding insert_sorted
  Below-insert_sorted k i [] h l = (h, tt)
  Below-insert_sorted k i (j ∷ js) h l = ground (arith, Below-insert_sorted k i js h l.1)

  Below-sort_indices : (k i n : ℕ) → k < i → Below k (sort_indices shares (indices_from i n))
  unfolding sort_indices indices_from
  Below-sort_indices k i zero h = tt
  Below-sort_indices k i (suc n) h =
      Below-insert_sorted k i _ h (Below-sort_indices k (suc i) n (omega arith))

  pub Ordered-sort_indices : (i n : ℕ) → Ordered (sort_indices shares (indices_from i n))
  unfolding sort_indices indices_from
  Ordered-sort_indices i zero = tt
  Ordered-sort_indices i (suc n) =
      Ordered-insert_sorted i _ (Below-sort_indices i (suc i) n (omega arith))
        (Ordered-sort_indices (suc i) n)

  times-insert_sorted :
      (k i : ℕ) (js : List ℕ)
      → times k (insert_sorted shares i js) ≡ indicator (i == k) + times k js
  unfolding insert_sorted
  times-insert_sorted k i [] = refl
  times-insert_sorted k i (j ∷ js) = ground (arith, times-insert_sorted k i js)

  pub times-sort_indices :
      (k i n : ℕ)
      → times k (sort_indices shares (indices_from i n))
        ≡ (if leb i k then (if ltb k (i + n) then 1 else 0) else 0)
  unfolding sort_indices indices_from
  times-sort_indices k i zero = ground arith
  times-sort_indices k i (suc n) = ground (
    arith,
    times-insert_sorted k i (sort_indices shares (indices_from (suc i) n)),
    times-sort_indices k (suc i) n,
  )

  -- Of two entries, the one that is served before is among the first `n` if the other is.
  missing : (k m : ℕ) (is : List ℕ) → BeforeAll m is → 0 < times k is → Before m k
  missing k m [] a h = absurd (omega arith)
  missing k m (i ∷ is) a h = elim (Bool-cases (i == k)) [
    | inl same ↦ let e : i ≡ k = ground arith in rw (← e) a.0
    | inr other ↦ missing k m is a.1 (ground arith)
  ]

  Before-antisym : (k m : ℕ) → Before k m → Before m k → k ≡ m
  Before-antisym k m a b = grind arith

  pub times-take-Before :
      (k m n : ℕ) (is : List ℕ)
      → Before k m
      → Ordered is
      → 0 < times k is
      → times m is ≤ 1
      → times m (take n is) ≤ times k (take n is)
  times-take-Before k m zero is b o here once = omega arith
  times-take-Before k m (suc n) [] b o here once = absurd (omega arith)
  times-take-Before k m (suc n) (i ∷ is) b o here once = elim (Bool-cases (i == k)) [
    | inl first ↦ ground (arith, times-take-le m n is)
    | inr later ↦ elim (Bool-cases (i == m)) [
      | inl other ↦
          let e : i ≡ m = ground arith in
          let after : Before m k = missing k m is (rw (← e) o.0) (ground arith) in
          absurd (ground (arith, Before-antisym k m b after))
      | inr apart ↦
          rw (later, apart)
            (omega (arith, times-take-Before k m n is b o.1 (ground arith) (ground arith)))
    ]
  ]
