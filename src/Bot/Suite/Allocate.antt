-- ===== src/Bot/Suite/Allocate.antt =====
-- The unit tests of `allocate` in src/bot/mod.rs, and their runs. `checks` tells whether the build
-- checks for overflow.
use rust_multichat_server.Base.{
  ℕ, ◌≡◌, refl, Bool, true, false, ◌&&◌, Option, none, some, List, [], ◌∷◌, ◌==◌, map, sum, leb,
  if◌then◌else◌,
}
use rust_multichat_server.Strings.{trim, is_whitespace, split, split_once, parse_unsigned}
use rust_multichat_server.Bot.Kind.{
  BotType, normal, spammer, fickle, ghost, quitter, ok, err, from_str,
}
use rust_multichat_server.Bot.Ratio.{parse, default}
use rust_multichat_server.Bot.Allocate.{allocate}
use rust_multichat_server.Bot.Suite.{bot_type_eq, entry_at}

-- `result.iter().map(|(_, n)| *n).sum()`.
abbrev pub total_of : List (BotType × ℕ) → ℕ
total_of result = sum (map (λ (p : BotType × ℕ). p.1) result)

-- The result for the default ratio.
unfoldable pub allocate_default : Bool → ℕ → Option (List (BotType × ℕ))
unfolding parse allocate
allocate_default checks total = elim (parse default) [
  | err e ↦ none
  | ok spec ↦ allocate checks total spec
]

unfoldable pub allocate_default_500 : Bool → Bool
unfolding allocate_default entry_at
allocate_default_500 checks = elim (allocate_default checks 500) [
  | none ↦ false
  | some result ↦
      total_of result == 500
      && entry_at result 0 (normal, 200)
      && entry_at result 1 (spammer, 100)
      && entry_at result 2 (fickle, 100)
      && entry_at result 3 (ghost, 50)
      && entry_at result 4 (quitter, 50)
]

unfoldable pub allocate_default_501 : Bool → Bool
unfolding allocate_default entry_at
allocate_default_501 checks = elim (allocate_default checks 501) [
  | none ↦ false
  | some result ↦ total_of result == 501 && entry_at result 0 (normal, 201)
]

-- `result.iter().find(|(bt, _)| *bt == b)`.
unfoldable pub find_type : BotType → List (BotType × ℕ) → Option ℕ
unfolding bot_type_eq
find_type b [] = none
find_type b ((bt, n) ∷ result) = if bot_type_eq bt b then some n else find_type b result

unfoldable pub allocate_fewer_bots_than_types : Bool → Bool
unfolding allocate_default find_type
allocate_fewer_bots_than_types checks = elim (allocate_default checks 3) [
  | none ↦ false
  | some result ↦
      total_of result == 3
      && elim (find_type normal result) [ none ↦ false | some normal_count ↦ leb 1 normal_count ]
]

unfoldable pub allocate_zero_bots : Bool → Bool
unfolding allocate_default
allocate_zero_bots checks = elim (allocate_default checks 0) [
  | none ↦ false
  | some result ↦ total_of result == 0
]

unfoldable pub allocate_one_bot : Bool → Bool
unfolding allocate_default
allocate_one_bot checks = elim (allocate_default checks 1) [
  | none ↦ false
  | some result ↦ total_of result == 1
]

allocate_tests_pass :
    (checks : Bool)
    → (allocate_default_500 checks ≡ true)
      × (allocate_default_501 checks ≡ true)
      × (allocate_fewer_bots_than_types checks ≡ true)
      × (allocate_zero_bots checks ≡ true)
      × (allocate_one_bot checks ≡ true)
unfolding allocate_default_500 allocate_default_501 allocate_fewer_bots_than_types
    allocate_zero_bots allocate_one_bot trim is_whitespace split split_once from_str parse_unsigned
allocate_tests_pass true = (refl, refl, refl, refl, refl)
allocate_tests_pass false = (refl, refl, refl, refl, refl)
