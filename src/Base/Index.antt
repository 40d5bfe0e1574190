-- ===== src/Base/Index.antt =====
-- Lists by their indices, where an item is replaced or removed.
use Prim.Native.Nat.{ℕ, zero, suc}
use mathlib.Core.Path.{◌≡◌}
use mathlib.Core.List.{List, [], ◌∷◌}
use mathlib.Core.Option.{some}
use native.Mathlib.Omega.{arith}
use rust_multichat_server.Base.Tests.{if◌then◌else◌, ◌==◌, ltb}
use rust_multichat_server.Base.Lists.{get_elem?, set, remove_at}

module _ {ℓ} {A : Type ℓ} where
  pub get_elem?-set :
      (xs : List A) (j i : ℕ) (v w : A)
      → get_elem? xs j ≡ some v
      → get_elem? (set xs j w) i ≡ (if j == i then some w else get_elem? xs i)
  get_elem?-set [] j i v w h = absurd (cc)
  get_elem?-set (x ∷ xs) zero zero v w h = ground arith
  get_elem?-set (x ∷ xs) zero (suc i) v w h = ground arith
  get_elem?-set (x ∷ xs) (suc j) zero v w h = ground arith
  get_elem?-set (x ∷ xs) (suc j) (suc i) v w h = ground (arith, get_elem?-set xs j i v w h)

  pub get_elem?-remove_at :
      (xs : List A) (j i : ℕ)
      → get_elem? (remove_at xs j) i ≡ (if ltb i j then get_elem? xs i else get_elem? xs (suc i))
  get_elem?-remove_at [] j i = ground arith
  get_elem?-remove_at (x ∷ xs) zero i = ground arith
  get_elem?-remove_at (x ∷ xs) (suc j) zero = ground arith
  get_elem?-remove_at (x ∷ xs) (suc j) (suc i) = ground (arith, get_elem?-remove_at xs j i)
