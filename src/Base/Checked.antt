-- ===== src/Base/Checked.antt =====
-- Arithmetic on unsigned integers of a given width: a panic where the build checks for overflow, and
-- a wrap where it does not.
use Prim.Native.Nat.{ℕ, ◌%◌, ◌<◌}
use mathlib.Core.Path.{◌≡◌}
use mathlib.Core.Bool.{Bool}
use mathlib.Core.Option.{Option, none, some}
use rust_multichat_server.Base.Tests.{ltb, if◌then◌else◌, lt→ltb}

-- The result `n` of an operation on numbers below `modulus`.
unfoldable pub checked : Bool → ℕ → ℕ → Option ℕ
checked checks modulus n =
    if ltb n modulus then some n else if checks then none else some (n % modulus)

pub checked-lt : (checks : Bool) (modulus n : ℕ) → n < modulus → checked checks modulus n ≡ some n
unfolding checked
checked-lt checks modulus n h = rw (lt→ltb n modulus h)
