-- ===== src/Base/Lists.antt =====
-- Lists measured and indexed by native numbers, under the library's names.
use Prim.Native.Nat.add
use Prim.Native.Nat.{ℕ, zero, suc, ◌+◌, ◌≤◌, min}
use mathlib.Core.Path.{◌≡◌, refl, ap}
use mathlib.Core.Bool.{Bool}
use mathlib.Core.List.{List, [], ◌∷◌, ◌++◌}
use mathlib.Core.Option.{Option, none, some}
use native.Mathlib.Omega.{arith}
use rust_multichat_server.Base.Tests.{if◌then◌else◌, indicator}

module _ {ℓ} {A : Type ℓ} where
  abbrev pub length : List A → ℕ
  length [] = 0
  length (x ∷ xs) = suc (length xs)

  abbrev pub get_elem? : List A → ℕ → Option A
  get_elem? [] i = none
  get_elem? (x ∷ xs) zero = some x
  get_elem? (x ∷ xs) (suc i) = get_elem? xs i

  abbrev pub get_or : List A → ℕ → A → A
  get_or [] i d = d
  get_or (x ∷ xs) zero d = x
  get_or (x ∷ xs) (suc i) d = get_or xs i d

  -- A write out of bounds changes nothing.
  abbrev pub set : List A → ℕ → A → List A
  set [] i v = []
  set (x ∷ xs) zero v = v ∷ xs
  set (x ∷ xs) (suc i) v = x ∷ set xs i v

  abbrev pub take : ℕ → List A → List A
  take zero xs = []
  take (suc n) [] = []
  take (suc n) (x ∷ xs) = x ∷ take n xs

  abbrev pub drop : ℕ → List A → List A
  drop zero xs = xs
  drop (suc n) [] = []
  drop (suc n) (x ∷ xs) = drop n xs

  -- The items that pass a test, in order.
  abbrev pub keep : (A → Bool) → List A → List A
  keep p [] = []
  keep p (x ∷ xs) = if p x then x ∷ keep p xs else keep p xs

  pub length-append : (xs ys : List A) → length (xs ++ ys) ≡ length xs + length ys
  length-append [] ys = omega arith
  length-append (x ∷ xs) ys = omega (arith, length-append xs ys)

module _ {ℓ} {A : Type ℓ} where
  pub length-take : (n : ℕ) (xs : List A) → length (take n xs) ≡ min n (length xs)
  length-take zero xs = omega arith
  length-take (suc n) [] = omega arith
  length-take (suc n) (x ∷ xs) = omega (arith, length-take n xs)

  pub length-keep-le : (p : A → Bool) (xs : List A) → length (keep p xs) ≤ length xs
  length-keep-le p [] = omega arith
  length-keep-le p (x ∷ xs) = ground (arith, length-keep-le p xs)

  pub length-set : (xs : List A) (i : ℕ) (v : A) → length (set xs i v) ≡ length xs
  length-set [] i v = refl
  length-set (x ∷ xs) zero v = refl
  length-set (x ∷ xs) (suc i) v = ap suc (length-set xs i v)

abbrev pub sum : List ℕ → ℕ
sum [] = 0
sum (x ∷ xs) = x + sum xs

pub sum-append : (xs ys : List ℕ) → sum (xs ++ ys) ≡ sum xs + sum ys
sum-append [] ys = omega arith
sum-append (x ∷ xs) ys = omega (arith, sum-append xs ys)

-- `std::array::from_fn` for an array of `n` elements, from index `i` on.
abbrev pub from_fn_at {ℓ} : {A : Type ℓ} → ℕ → ℕ → (ℕ → A) → List A
from_fn_at zero i f = []
from_fn_at (suc n) i f = f i ∷ from_fn_at n (suc i) f

abbrev pub from_fn {ℓ} : {A : Type ℓ} → ℕ → (ℕ → A) → List A
from_fn n f = from_fn_at n 0 f

-- How many items pass a test.
abbrev pub count_by {ℓ} : {A : Type ℓ} → (A → Bool) → List A → ℕ
count_by p [] = 0
count_by p (x ∷ xs) = indicator (p x) + count_by p xs

pub count_by-set {ℓ} :
    {A : Type ℓ} (p : A → Bool) (xs : List A) (i : ℕ) (v w : A)
    → get_elem? xs i ≡ some v
    → count_by p (set xs i w) + indicator (p v) ≡ count_by p xs + indicator (p w)
count_by-set p [] i v w h = ground arith
count_by-set p (x ∷ xs) zero v w h = ground arith
count_by-set p (x ∷ xs) (suc i) v w h = omega (arith, count_by-set p xs i v w h)

pub count_by-le-length {ℓ} : {A : Type ℓ} (p : A → Bool) (xs : List A) → count_by p xs ≤ length xs
count_by-le-length p [] = omega arith
count_by-le-length p (x ∷ xs) = ground (arith, count_by-le-length p xs)

module _ {ℓ} {A : Type ℓ} where
  pub take-all : (n : ℕ) (p : List A) → length p ≤ n → take n p ≡ p
  take-all zero [] h = refl
  take-all zero (x ∷ p) h = absurd (omega arith)
  take-all (suc n) [] h = refl
  take-all (suc n) (x ∷ p) h = ap (◌∷◌ x) (take-all n p (omega arith))

  pub take-append_left : (n : ℕ) (p q : List A) → n ≤ length p → take n (p ++ q) ≡ take n p
  take-append_left zero p q h = refl
  take-append_left (suc n) [] q h = absurd (omega arith)
  take-append_left (suc n) (x ∷ p) q h = ap (◌∷◌ x) (take-append_left n p q (omega arith))

  pub take-append_right : (k : ℕ) (p q : List A) → take (length p + k) (p ++ q) ≡ p ++ take k q
  take-append_right k [] q = rw (add.zero k)
  take-append_right k (x ∷ p) q = rw (add.suc (length p) k) (ap (◌∷◌ x) (take-append_right k p q))

  pub take-take_less : (m n : ℕ) (q : List A) → m ≤ n → take m (take n q) ≡ take m q
  take-take_less zero n q h = refl
  take-take_less (suc m) zero q h = absurd (omega arith)
  take-take_less (suc m) (suc n) [] h = refl
  take-take_less (suc m) (suc n) (x ∷ q) h = ap (◌∷◌ x) (take-take_less m n q (omega arith))

pub keep-append {ℓ} :
    {A : Type ℓ} (p : A → Bool) (xs ys : List A) → keep p (xs ++ ys) ≡ keep p xs ++ keep p ys
keep-append p [] ys = refl
keep-append p (x ∷ xs) ys = ground (arith, keep-append p xs ys)

-- `Vec::remove`, and nothing out of bounds.
abbrev pub remove_at {ℓ} : {A : Type ℓ} → List A → ℕ → List A
remove_at [] i = []
remove_at (x ∷ xs) zero = xs
remove_at (x ∷ xs) (suc i) = x ∷ remove_at xs i

pub count_by-remove_at {ℓ} :
    {A : Type ℓ} (p : A → Bool) (xs : List A) (i : ℕ) (v : A)
    → get_elem? xs i ≡ some v
    → count_by p (remove_at xs i) + indicator (p v) ≡ count_by p xs
count_by-remove_at p [] i v h = absurd (cc)
count_by-remove_at p (x ∷ xs) zero v h = ground arith
count_by-remove_at p (x ∷ xs) (suc i) v h = omega (arith, count_by-remove_at p xs i v h)

pub length-remove_at {ℓ} :
    {A : Type ℓ} (xs : List A) (i : ℕ) (v : A)
    → get_elem? xs i ≡ some v
    → length (remove_at xs i) + 1 ≡ length xs
length-remove_at [] i v h = absurd (cc)
length-remove_at (x ∷ xs) zero v h = omega arith
length-remove_at (x ∷ xs) (suc i) v h = omega (arith, length-remove_at xs i v h)
