-- ===== src/Bot/Suite.antt =====
-- The tests of src/bot/mod.rs as functions into Bool: an assertion that fails, an `unwrap` of an
-- error and an index out of bounds are `false`. The property tests take what their strategies draw.
pub mod Strategies
pub mod Drawn
pub mod Ratio
pub mod RatioProps
pub mod Allocate
pub mod AllocateProps
pub mod Rtt
pub mod Report
pub mod ReportParse
pub mod ReportProps
pub mod Votes
pub mod VotesProps
use rust_multichat_server.Base.{
  ℕ, ◌≡◌, refl, Bool, true, false, ◌&&◌, Option, none, some, List, [], ◌∷◌, ◌==◌, get_elem?,
  ==_refl, arith,
}
use rust_multichat_server.Bot.Kind.{
  BotType, normal, fickle, spammer, ghost, quitter, Result, ok, err,
}

unfoldable pub is_err : {E A : Type 0} → Result E A → Bool
is_err (ok a) = false
is_err (err e) = true

-- The derived equality of `BotType`.
unfoldable pub bot_type_eq : BotType → BotType → Bool
bot_type_eq normal normal = true
bot_type_eq fickle fickle = true
bot_type_eq spammer spammer = true
bot_type_eq ghost ghost = true
bot_type_eq quitter quitter = true
bot_type_eq _ _ = false

unfoldable pub entry_eq : BotType × ℕ → BotType × ℕ → Bool
unfolding bot_type_eq
entry_eq (a, n) (b, m) = bot_type_eq a b && n == m

unfoldable pub entries_eq : List (BotType × ℕ) → List (BotType × ℕ) → Bool
unfolding entry_eq
entries_eq [] [] = true
entries_eq (d ∷ ds) (e ∷ es) = entry_eq d e && entries_eq ds es
entries_eq _ _ = false

-- `entries[i] == e`.
unfoldable pub entry_at : List (BotType × ℕ) → ℕ → BotType × ℕ → Bool
unfolding entry_eq
entry_at es i e = elim (get_elem? es i) [ none ↦ false | some d ↦ entry_eq d e ]

unfoldable pub option_eq : Option ℕ → Option ℕ → Bool
option_eq none none = true
option_eq (some n) (some m) = n == m
option_eq _ _ = false

unfoldable pub numbers_eq : List ℕ → List ℕ → Bool
numbers_eq [] [] = true
numbers_eq (n ∷ ns) (m ∷ ms) = n == m && numbers_eq ns ms
numbers_eq _ _ = false

pub bot_type_eq_refl : (b : BotType) → bot_type_eq b b ≡ true
unfolding bot_type_eq
bot_type_eq_refl normal = refl
bot_type_eq_refl fickle = refl
bot_type_eq_refl spammer = refl
bot_type_eq_refl ghost = refl
bot_type_eq_refl quitter = refl

pub entries_eq_refl : (es : List (BotType × ℕ)) → entries_eq es es ≡ true
unfolding entries_eq
entries_eq_refl [] = refl
entries_eq_refl ((b, n) ∷ es) = rw (bot_type_eq_refl b, ==_refl n) (entries_eq_refl es)

pub numbers_eq_refl : (ns : List ℕ) → numbers_eq ns ns ≡ true
unfolding numbers_eq
numbers_eq_refl [] = refl
numbers_eq_refl (n ∷ ns) = rw (==_refl n) (numbers_eq_refl ns)
