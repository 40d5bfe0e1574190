-- ===== src/Strings.antt =====
-- What the program uses of the standard library's strings. A string is its code points.
pub mod Trim
pub mod Parts
pub mod Decimal
pub mod Chars
pub mod Lines
pub mod Contains
use rust_multichat_server.Base.{
  ℕ, zero, suc, ◌+◌, ◌-◌, ◌*◌, ◌/◌, ◌%◌, ◌^◌, ◌≡◌, refl, Bool, true, false, ◌&&◌, ◌||◌, Option,
  none, some, List, [], ◌∷◌, ◌++◌, if◌then◌else◌, ltb, leb, ◌==◌, codes, ◌>>=◌,
}
use rust_multichat_server.Protocol.{Text}

abbrev pub max_u32 : ℕ
max_u32 = 2 ^ 32 - 1

abbrev pub max_u64 : ℕ
max_u64 = 2 ^ 64 - 1

unfoldable pub text_eq : Text → Text → Bool
text_eq [] [] = true
text_eq [] (d ∷ t) = false
text_eq (c ∷ s) [] = false
text_eq (c ∷ s) (d ∷ t) = c == d && text_eq s t

-- `char::is_whitespace`: the property White_Space.
unfoldable pub is_whitespace : ℕ → Bool
is_whitespace c =
    (leb 9 c && leb c 13)
    || c == 32
    || c == 0x85
    || c == 0xa0
    || c == 0x1680
    || (leb 0x2000 c && leb c 0x200a)
    || c == 0x2028
    || c == 0x2029
    || c == 0x202f
    || c == 0x205f
    || c == 0x3000

unfoldable pub trim_start : Text → Text
trim_start [] = []
trim_start (c ∷ s) = if is_whitespace c then trim_start s else c ∷ s

-- A character in front of a trimmed text.
unfoldable pub put_front : ℕ → Text → Text
put_front c [] = if is_whitespace c then [] else c ∷ []
put_front c (d ∷ s) = c ∷ d ∷ s

unfoldable pub trim_end : Text → Text
unfolding put_front
trim_end [] = []
trim_end (c ∷ s) = put_front c (trim_end s)

unfoldable pub trim : Text → Text
unfolding trim_start trim_end
trim s = trim_end (trim_start s)

unfoldable pub add_to_first : ℕ → List Text → List Text
add_to_first c [] = (c ∷ []) ∷ []
add_to_first c (p ∷ ps) = (c ∷ p) ∷ ps

-- `s.split(sep)`.
unfoldable pub split : ℕ → Text → List Text
unfolding add_to_first
split sep [] = [] ∷ []
split sep (c ∷ s) = if c == sep then [] ∷ split sep s else add_to_first c (split sep s)

-- `s.split_once(sep)`.
unfoldable pub split_once : ℕ → Text → Option (Text × Text)
split_once sep [] = none
split_once sep (c ∷ s) =
    if c == sep then some ([], s) else (split_once sep s >>= λ p. some (c ∷ p.0, p.1))

-- `parts.join(sep)` for a separator of one character.
unfoldable pub join : ℕ → List Text → Text
join sep [] = []
join sep (p ∷ []) = p
join sep (p ∷ q ∷ ps) = p ++ (sep ∷ join sep (q ∷ ps))

-- `s.strip_prefix(prefix)`.
unfoldable pub strip_prefix : Text → Text → Option Text
strip_prefix [] s = some s
strip_prefix (p ∷ ps) [] = none
strip_prefix (p ∷ ps) (c ∷ s) = if p == c then strip_prefix ps s else none

-- The position behind the first occurrence: `s.find(target)` and the slice after it.
unfoldable pub after_first : Text → Text → Option Text
unfolding strip_prefix
after_first target [] = strip_prefix target []
after_first target (c ∷ s) = elim (strip_prefix target (c ∷ s)) [
  | some rest ↦ some rest
  | none ↦ after_first target s
]

unfoldable pub contains : Text → Text → Bool
unfolding after_first
contains target s = elim (after_first target s) [ some _ ↦ true | none ↦ false ]

unfoldable pub is_digit : ℕ → Bool
is_digit c = leb b'0' c && leb c b'9'

-- The digits of `str::parse` for an unsigned type with the given maximum, after `n`.
unfoldable pub parse_digits : ℕ → Text → ℕ → Option ℕ
unfolding is_digit
parse_digits limit [] n = some n
parse_digits limit (c ∷ s) n =
    let next = n * 10 + (c - b'0') in
    let rest = parse_digits limit s next in
    if is_digit c then (if leb next limit then rest else none) else none

-- At least one digit.
unfoldable pub parse_number : ℕ → Text → Option ℕ
unfolding parse_digits
parse_number limit [] = none
parse_number limit (c ∷ s) = parse_digits limit (c ∷ s) 0

-- `s.parse()`: a plus sign may stand in front.
unfoldable pub parse_unsigned : ℕ → Text → Option ℕ
unfolding parse_number
parse_unsigned limit [] = none
parse_unsigned limit (c ∷ s) =
    if c == b'+' then parse_number limit s else parse_number limit (c ∷ s)

-- The decimal digits of `n` in front of `out`; more fuel than `n` is enough.
unfoldable pub digits : ℕ → ℕ → Text → Text
digits zero n out = out
digits (suc f) n out =
    let rest = digits f (n / 10) ((b'0' + n % 10) ∷ out) in if n == 0 then out else rest

-- `n.to_string()`.
unfoldable pub to_string : ℕ → Text
unfolding digits
to_string n = if n == 0 then b'0' ∷ [] else digits (suc n) n []
