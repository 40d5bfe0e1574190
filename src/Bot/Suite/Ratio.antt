-- ===== src/Bot/Suite/Ratio.antt =====
-- The unit tests of `RatioSpec::parse` and of `BotType` in src/bot/mod.rs, and their runs.
use rust_multichat_server.Base.{
  ◌≡◌, refl, Bool, true, false, ◌&&◌, List, [], ◌∷◌, ◌==◌, codes, length,
}
use rust_multichat_server.Strings.{trim, is_whitespace, split, split_once, parse_unsigned}
use rust_multichat_server.Bot.Kind.{
  BotType, normal, fickle, spammer, ghost, quitter, ok, err, from_str, as_str,
}
use rust_multichat_server.Bot.Ratio.{parse, default}
use rust_multichat_server.Bot.Suite.{is_err, bot_type_eq, entries_eq, entry_at}

unfoldable pub parse_default_ratio : Bool
unfolding parse entry_at
parse_default_ratio = elim (parse default) [
  | err e ↦ false
  | ok spec ↦
      length spec.entries == 5
      && entry_at spec.entries 0 (normal, 40)
      && entry_at spec.entries 1 (spammer, 20)
      && entry_at spec.entries 2 (fickle, 20)
      && entry_at spec.entries 3 (ghost, 10)
      && entry_at spec.entries 4 (quitter, 10)
]

unfoldable pub parse_single_entry : Bool
unfolding parse entries_eq
parse_single_entry = elim (parse (codes "normal:100")) [
  | err e ↦ false
  | ok spec ↦ entries_eq spec.entries ((normal, 100) ∷ [])
]

unfoldable pub parse_with_whitespace : Bool
unfolding parse entry_at
parse_with_whitespace = elim (parse (codes "  normal:40 , spammer:20  ")) [
  | err e ↦ false
  | ok spec ↦
      length spec.entries == 2
      && entry_at spec.entries 0 (normal, 40)
      && entry_at spec.entries 1 (spammer, 20)
]

unfoldable pub parse_empty_string : Bool
unfolding parse is_err
parse_empty_string = is_err (parse [])

unfoldable pub parse_whitespace_only : Bool
unfolding parse is_err
parse_whitespace_only = is_err (parse (codes "   "))

unfoldable pub parse_bad_format_no_colon : Bool
unfolding parse is_err
parse_bad_format_no_colon = is_err (parse (codes "normal40"))

unfoldable pub parse_zero_ratio : Bool
unfolding parse is_err
parse_zero_ratio = is_err (parse (codes "normal:0"))

unfoldable pub parse_invalid_bot_type : Bool
unfolding parse is_err
parse_invalid_bot_type = is_err (parse (codes "unknown:10"))

unfoldable pub parse_non_numeric_ratio : Bool
unfolding parse is_err
parse_non_numeric_ratio = is_err (parse (codes "normal:abc"))

-- The loop over the types.
unfoldable pub types_round_trip : List BotType → Bool
unfolding from_str as_str bot_type_eq
types_round_trip [] = true
types_round_trip (bt ∷ bts) =
    elim (from_str (as_str bt)) [ err e ↦ false | ok b ↦ bot_type_eq b bt ] && types_round_trip bts

unfoldable pub bot_type_roundtrip : Bool
unfolding types_round_trip
bot_type_roundtrip = types_round_trip (normal ∷ fickle ∷ spammer ∷ ghost ∷ quitter ∷ [])

unfoldable pub bot_type_invalid : Bool
unfolding from_str is_err
bot_type_invalid = is_err (from_str (codes "invalid")) && is_err (from_str [])

parse_tests_pass :
    (parse_default_ratio ≡ true) × (parse_single_entry ≡ true) × (parse_with_whitespace ≡ true)
unfolding parse_default_ratio parse_single_entry parse_with_whitespace trim is_whitespace split
    split_once from_str parse_unsigned
parse_tests_pass = (refl, refl, refl)

rejection_tests_pass :
    (parse_empty_string ≡ true)
    × (parse_whitespace_only ≡ true)
    × (parse_bad_format_no_colon ≡ true)
    × (parse_zero_ratio ≡ true)
    × (parse_invalid_bot_type ≡ true)
    × (parse_non_numeric_ratio ≡ true)
unfolding parse_empty_string parse_whitespace_only parse_bad_format_no_colon parse_zero_ratio
    parse_invalid_bot_type parse_non_numeric_ratio trim is_whitespace split split_once from_str
    parse_unsigned
rejection_tests_pass = (refl, refl, refl, refl, refl, refl)

bot_type_tests_pass : (bot_type_roundtrip ≡ true) × (bot_type_invalid ≡ true)
unfolding bot_type_roundtrip bot_type_invalid
bot_type_tests_pass = (refl, refl)
