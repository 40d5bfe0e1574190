-- ===== src/Bot/Ratio.antt =====
-- `RatioSpec` of src/bot/mod.rs: its parser and its printer.
pub mod RoundTrip
pub mod Rejects
use rust_multichat_server.Base.{
  ℕ, ◌≡◌, refl, Bool, true, false, Option, none, some, List, [], ◌∷◌, ◌++◌, codes, map,
  if◌then◌else◌, ◌==◌,
}
use rust_multichat_server.Protocol.{Text}
use rust_multichat_server.Strings.{
  max_u32, trim, split, split_once, join, parse_unsigned, to_string, is_whitespace,
}
use rust_multichat_server.Bot.Kind.{
  BotType, normal, spammer, fickle, ghost, quitter, Result, ok, err, ParseError, empty_spec,
  bad_format, bad_number, zero_ratio, as_str, from_str,
}

pub record RatioSpec : Type 0 where
  pub entries : List (BotType × ℕ)

abbrev pub default : Text
default = codes "normal:40,spammer:20,fickle:20,ghost:10,quitter:10"

-- The question mark operator.
infixl 5 ◌>>=◌
abbrev pub ◌>>=◌ {ℓ} : {E A B : Type ℓ} → Result E A → (A → Result E B) → Result E B
ok a >>= f = f a
err e >>= f = err e

-- `ok_or_else` and `map_err`.
abbrev pub or_fail {ℓ} : {E A : Type ℓ} → Option A → E → Result E A
or_fail none e = err e
or_fail (some a) e = ok a

unfoldable pub check_ratio : Text → BotType → ℕ → Result ParseError (BotType × ℕ)
check_ratio type_str bot_type ratio =
    if ratio == 0 then err (zero_ratio type_str) else ok (bot_type, ratio)

-- One round of the loop of `parse`, for a part that is trimmed.
unfoldable pub parse_part : Text → Result ParseError (BotType × ℕ)
unfolding check_ratio
parse_part part = do
  (type_str, ratio_str) ← or_fail (split_once b':' part) (bad_format part)
  bot_type ← from_str (trim type_str)
  ratio ← or_fail (parse_unsigned max_u32 (trim ratio_str)) (bad_number (trim ratio_str))
  check_ratio (trim type_str) bot_type ratio

unfoldable pub parse_parts : List Text → List (BotType × ℕ) → Result ParseError RatioSpec
unfolding parse_part
parse_parts [] entries = ok (record { entries = entries })
parse_parts (part ∷ parts) entries =
    parse_part (trim part) >>= λ entry. parse_parts parts (entries ++ entry ∷ [])

unfoldable pub parse_trimmed : Text → Result ParseError RatioSpec
unfolding parse_parts
parse_trimmed [] = err empty_spec
parse_trimmed (c ∷ s) = parse_parts (split b',' (c ∷ s)) []

unfoldable pub parse : Text → Result ParseError RatioSpec
unfolding parse_trimmed
parse s = parse_trimmed (trim s)

unfoldable pub entry_str : BotType × ℕ → Text
unfolding as_str to_string
entry_str (b, r) = as_str b ++ (b':' ∷ to_string r)

-- `Display`.
unfoldable pub display : RatioSpec → Text
unfolding entry_str join
display spec = join b',' (map entry_str spec.entries)
