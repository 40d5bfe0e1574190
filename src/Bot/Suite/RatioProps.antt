-- ===== src/Bot/Suite/RatioProps.antt =====
-- The property tests of the ratio parser in src/bot/mod.rs hold for every input.
use rust_multichat_server.Base.{
  ℕ, zero, suc, ◌<◌, ◌≡◌, refl, ap, Bool, true, false, ◌&&◌, none, List, [], ◌∷◌, ◌++◌, not, leb,
  codes, length, length-append, arith,
}
use rust_multichat_server.Protocol.{Text}
use rust_multichat_server.Strings.{
  text_eq, trim, is_whitespace, split, split_once, parse_unsigned, to_string,
}
use rust_multichat_server.Strings.Decimal.{AllChars}
use rust_multichat_server.Strings.Chars.{AllChars-append, AllChars-weaken}
use rust_multichat_server.Strings.Trim.{is_dark, trim-dark}
use rust_multichat_server.Strings.Parts.{is_not, split-plain, split_once-append}
use rust_multichat_server.Bot.Kind.{Result, BotType, ok, err, from_str, as_str}
use rust_multichat_server.Bot.Ratio.{
  ◌>>=◌, RatioSpec, parse, parse_trimmed, parse_parts, parse_part, display,
}
use rust_multichat_server.Bot.Ratio.RoundTrip.{
  parse-display, is_plain, number-AllChars, plain_dark, plain_no_comma, plain_no_colon,
}
use rust_multichat_server.Bot.Suite.{is_err, entries_eq, entries_eq_refl}
use rust_multichat_server.Bot.Suite.Drawn.{arb_ratio_entries-HasForm}
use rust_multichat_server.Bot.Suite.Strategies.{arb_bot_type, Ratios, IsDrawn, arb_ratio_spec}

unfoldable pub prop_ratio_spec_roundtrip : RatioSpec → Bool
unfolding parse display entries_eq
prop_ratio_spec_roundtrip spec = elim (parse (display spec)) [
  | err e ↦ false
  | ok parsed ↦ entries_eq parsed.entries spec.entries
]

-- The filter on the names, and the test.
unfoldable pub is_invalid_name : Text → Bool
unfolding text_eq
is_invalid_name s =
    not (text_eq s (codes "normal"))
    && not (text_eq s (codes "fickle"))
    && not (text_eq s (codes "spammer"))
    && not (text_eq s (codes "ghost"))
    && not (text_eq s (codes "quitter"))

unfoldable pub prop_invalid_bot_type_rejected : Text → ℕ → Bool
unfolding parse is_err to_string
prop_invalid_bot_type_rejected invalid_name ratio =
    is_err (parse (invalid_name ++ (b':' ∷ to_string ratio)))

unfoldable pub prop_bad_format_rejected : Text → Bool
unfolding parse is_err
prop_bad_format_rejected word = is_err (parse word)

unfoldable pub prop_zero_ratio_rejected : ℕ → Bool
unfolding parse is_err as_str arb_bot_type
prop_zero_ratio_rejected n = is_err (parse (as_str (arb_bot_type n) ++ codes ":0"))

-- The character class [a-z].
abbrev pub is_lower : ℕ → Bool
is_lower c = leb b'a' c && leb c b'z'

round_trip :
    (spec : RatioSpec) → parse (display spec) ≡ ok spec → prop_ratio_spec_roundtrip spec ≡ true
unfolding prop_ratio_spec_roundtrip
round_trip spec e = rw (prop_ratio_spec_roundtrip, e) (entries_eq_refl spec.entries)

round_trips : (d : Ratios) → IsDrawn d → prop_ratio_spec_roundtrip (arb_ratio_spec d) ≡ true
unfolding arb_ratio_spec
round_trips d v =
    let f = arb_ratio_entries-HasForm d v in
    let form : arb_ratio_spec d ≡ record { entries = f.first ∷ f.others } =
      ap (λ (es : List (BotType × ℕ)). record { entries = es }) f.whole in
    rw form (round_trip _ (parse-display f.first f.others f.valid))

lower_plain : (c : ℕ) → is_lower c ≡ true → is_plain c ≡ true
unfolding is_whitespace
lower_plain c h = ground arith

split_once-none : (sep : ℕ) (s : Text) → AllChars (is_not sep) s → split_once sep s ≡ none
unfolding split_once
split_once-none sep [] a = refl
split_once-none sep (c ∷ s) a = rw (split_once-none sep s a.1) (ground arith)

from_str-invalid : (s : Text) → is_invalid_name s ≡ true → is_err (from_str s) ≡ true
unfolding is_invalid_name from_str is_err
from_str-invalid s h = ground arith

is_err-bind :
    {E A B : Type 0} (r : Result E A) (f : A → Result E B)
    → is_err r ≡ true
    → is_err (r >>= f) ≡ true
unfolding is_err
is_err-bind (err e) f h = refl
is_err-bind (ok a) f h = cc

-- One part without a comma, in characters that are not blank.
parse-part :
    (s : Text)
    → 0 < length s
    → AllChars is_dark s
    → AllChars (is_not b',') s
    → is_err (parse_part s) ≡ true
    → is_err (parse s) ≡ true
unfolding parse parse_trimmed parse_parts is_err
parse-part [] some_char dark plain e = absurd (omega arith)
parse-part (c ∷ s) some_char dark plain e =
    rw (trim-dark (c ∷ s) dark, split-plain b',' (c ∷ s) plain)
      (rw (trim-dark (c ∷ s) dark) (is_err-bind (parse_part (c ∷ s)) _ e))

name_refused :
    (name ratio : Text)
    → AllChars is_plain name
    → is_invalid_name name ≡ true
    → is_err (parse_part (name ++ (b':' ∷ ratio))) ≡ true
unfolding parse_part
name_refused name ratio plain bad =
    rw
      (
        split_once-append b':' name ratio (AllChars-weaken is_plain _ plain_no_colon name plain),
        trim-dark name (AllChars-weaken is_plain is_dark plain_dark name plain),
      )
      (is_err-bind (from_str name) _ (from_str-invalid name bad))

invalid_rejected :
    (name : Text) (ratio : ℕ)
    → AllChars is_lower name
    → 0 < length name
    → is_invalid_name name ≡ true
    → prop_invalid_bot_type_rejected name ratio ≡ true
unfolding prop_invalid_bot_type_rejected
invalid_rejected name ratio lower some_char bad =
    let plain = AllChars-weaken is_lower is_plain lower_plain name lower in
    let number = number-AllChars ratio in
    parse-part (name ++ (b':' ∷ to_string ratio))
      (omega (arith, length-append name (b':' ∷ to_string ratio)))
      (AllChars-append is_dark name _ (AllChars-weaken is_plain is_dark plain_dark name plain)
        (dark_colon, AllChars-weaken is_plain is_dark plain_dark _ number))
      (AllChars-append (is_not b',') name _ (AllChars-weaken is_plain _ plain_no_comma name plain)
        (refl, AllChars-weaken is_plain _ plain_no_comma _ number))
      (name_refused name (to_string ratio) plain bad)
  where
    dark_colon : is_dark b':' ≡ true
    dark_colon = unfold is_whitespace in refl

word_rejected :
    (word : Text) → AllChars is_lower word → 0 < length word → prop_bad_format_rejected word ≡ true
unfolding prop_bad_format_rejected
word_rejected word lower some_char =
    let plain = AllChars-weaken is_lower is_plain lower_plain word lower in
    parse-part word some_char (AllChars-weaken is_plain is_dark plain_dark word plain)
      (AllChars-weaken is_plain _ plain_no_comma word plain)
      (unfold parse_part is_err in
        rw (split_once-none b':' word (AllChars-weaken is_plain _ plain_no_colon word plain)) refl)

zero_rejected : (n : ℕ) → prop_zero_ratio_rejected n ≡ true
unfolding prop_zero_ratio_rejected trim is_whitespace split split_once from_str parse_unsigned
zero_rejected zero = refl
zero_rejected (suc zero) = refl
zero_rejected (suc (suc zero)) = refl
zero_rejected (suc (suc (suc zero))) = refl
zero_rejected (suc (suc (suc (suc n)))) = refl

-- The property tests of the parser pass for every input that their strategies can draw: a
-- specification is read back from its print; a name of one or more letters from a to z that is no
-- bot type is refused with any ratio; so is a word of such letters alone, and each bot type with
-- the ratio 0.
pub ratio_props_pass :
    (d : Ratios) (name word : Text) (ratio n : ℕ)
    → IsDrawn d
    → AllChars is_lower name
    → 0 < length name
    → is_invalid_name name ≡ true
    → AllChars is_lower word
    → 0 < length word
    → (prop_ratio_spec_roundtrip (arb_ratio_spec d) ≡ true)
      × (prop_invalid_bot_type_rejected name ratio ≡ true)
      × (prop_bad_format_rejected word ≡ true)
      × (prop_zero_ratio_rejected n ≡ true)
ratio_props_pass d name word ratio n drawn lower some_char bad lower_word some_char_word = (
  round_trips d drawn,
  invalid_rejected name ratio lower some_char bad,
  word_rejected word lower_word some_char_word,
  zero_rejected n,
)
