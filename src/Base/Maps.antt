-- ===== src/Base/Maps.antt =====
-- Arrays as functions of the index, and hash maps with numeric keys as association lists.
use Prim.Native.Nat.{ℕ, ◌+◌}
use mathlib.Core.Path.{◌≡◌, refl}
use mathlib.Core.List.{List, [], ◌∷◌}
use mathlib.Core.Option.{Option, none, some}
use native.Mathlib.Omega.{arith}
use mathlib.Core.Option
use rust_multichat_server.Base.Lists.{length}
use rust_multichat_server.Base.Tests.{if◌then◌else◌, ◌==◌}

abbrev pub update {ℓ} : {A : Type ℓ} → (ℕ → A) → ℕ → A → ℕ → A
update f i a j = if j == i then a else f j

module _ {ℓ} {V : Type ℓ} where
  abbrev pub lookup : ℕ → List (ℕ × V) → Option V
  lookup k [] = none
  lookup k ((j, v) ∷ m) = if j == k then some v else lookup k m

  -- `HashMap::insert`: one entry per key.
  abbrev pub insert : ℕ → V → List (ℕ × V) → List (ℕ × V)
  insert k v [] = (k, v) ∷ []
  insert k v ((j, w) ∷ m) = if j == k then (k, v) ∷ m else (j, w) ∷ insert k v m

  -- `HashMap::remove`.
  abbrev pub remove : ℕ → List (ℕ × V) → List (ℕ × V)
  remove k [] = []
  remove k ((j, w) ∷ m) = if j == k then remove k m else (j, w) ∷ remove k m

  -- `if let Some(v) = map.get_mut(&k) { *v = f(*v) }`.
  abbrev pub modify : ℕ → (V → V) → List (ℕ × V) → List (ℕ × V)
  modify k f [] = []
  modify k f ((j, w) ∷ m) = if j == k then (j, f w) ∷ modify k f m else (j, w) ∷ modify k f m

  pub lookup-insert :
      (k j : ℕ) (v : V) (m : List (ℕ × V))
      → lookup j (insert k v m) ≡ (if k == j then some v else lookup j m)
  lookup-insert k j v [] = refl
  lookup-insert k j v ((i, w) ∷ m) = ground (arith, lookup-insert k j v m)

  pub lookup-remove :
      (k j : ℕ) (m : List (ℕ × V)) → lookup j (remove k m) ≡ (if k == j then none else lookup j m)
  lookup-remove k j [] = ground arith
  lookup-remove k j ((i, w) ∷ m) = ground (arith, lookup-remove k j m)

pub length-insert {ℓ} :
    {V : Type ℓ} (k : ℕ) (v : V) (m : List (ℕ × V))
    → lookup k m ≡ none
    → length (insert k v m) ≡ length m + 1
length-insert k v [] h = omega arith
length-insert k v ((j, w) ∷ m) h = ground (arith, length-insert k v m)

pub remove_missing {ℓ} :
    {V : Type ℓ} (k : ℕ) (m : List (ℕ × V)) → lookup k m ≡ none → remove k m ≡ m
remove_missing k [] h = refl
remove_missing k ((j, w) ∷ m) h = ground (arith, remove_missing k m)

pub remove-insert {ℓ} :
    {V : Type ℓ} (k : ℕ) (v : V) (m : List (ℕ × V))
    → lookup k m ≡ none
    → remove k (insert k v m) ≡ m
remove-insert k v [] h = ground arith
remove-insert k v ((j, w) ∷ m) h = ground (arith, remove-insert k v m)

pub remove-modify {ℓ} :
    {V : Type ℓ} (k : ℕ) (f : V → V) (m : List (ℕ × V)) → remove k (modify k f m) ≡ remove k m
remove-modify k f [] = refl
remove-modify k f ((i, w) ∷ m) = ground (arith, remove-modify k f m)

pub lookup-modify {ℓ} :
    {V : Type ℓ} (k j : ℕ) (f : V → V) (m : List (ℕ × V))
    → lookup j (modify k f m) ≡ (if k == j then Option.map f (lookup j m) else lookup j m)
lookup-modify k j f [] = ground arith
lookup-modify k j f ((i, w) ∷ m) = ground (arith, lookup-modify k j f m)

pub length-modify {ℓ} :
    {V : Type ℓ} (k : ℕ) (f : V → V) (m : List (ℕ × V)) → length (modify k f m) ≡ length m
length-modify k f [] = refl
length-modify k f ((i, w) ∷ m) = ground (arith, length-modify k f m)

-- Every key stands once.
abbrev pub Unique {ℓ} : {V : Type ℓ} → List (ℕ × V) → Type ℓ
Unique [] = Unit
Unique ((k, v) ∷ m) = (lookup k m ≡ none) × Unique m

pub Unique-insert {ℓ} :
    {V : Type ℓ} (k : ℕ) (v : V) (m : List (ℕ × V)) → Unique m → Unique (insert k v m)
Unique-insert k v [] u = (refl, tt)
Unique-insert k v ((j, w) ∷ m) u = ground (arith, lookup-insert k j v m, Unique-insert k v m u.1)

pub Unique-modify {ℓ} :
    {V : Type ℓ} (k : ℕ) (f : V → V) (m : List (ℕ × V)) → Unique m → Unique (modify k f m)
Unique-modify k f [] u = tt
Unique-modify k f ((j, w) ∷ m) u = ground (arith, lookup-modify k j f m, Unique-modify k f m u.1)

pub Unique-remove {ℓ} : {V : Type ℓ} (k : ℕ) (m : List (ℕ × V)) → Unique m → Unique (remove k m)
Unique-remove k [] u = tt
Unique-remove k ((j, w) ∷ m) u = ground (arith, lookup-remove k j m, Unique-remove k m u.1)

pub length-remove {ℓ} :
    {V : Type ℓ} (k : ℕ) (v : V) (m : List (ℕ × V))
    → Unique m
    → lookup k m ≡ some v
    → length (remove k m) + 1 ≡ length m
length-remove k v [] u h = absurd (cc)
length-remove k v ((j, w) ∷ m) u h = ground (arith, length-remove k v m u.1, remove_missing k m)
