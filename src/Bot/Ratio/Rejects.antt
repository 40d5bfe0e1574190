-- ===== src/Bot/Ratio/Rejects.antt =====
-- What the parser of ratio specifications lets through.
use mathlib.Core.Path.{subst}
use mathlib.Core.List.{cons-ne-nil}
use rust_multichat_server.Base.{
  ℕ, ◌-◌, ◌*◌, ◌+◌, ◌≤◌, ◌<◌, ◌≡◌, ◌≢◌, refl, ap, Option, none, some, List, [], ◌∷◌, ◌++◌, arith,
  length, length-append,
}
use rust_multichat_server.Protocol.{Text}
use rust_multichat_server.Strings.{
  max_u32, trim, split, split_once, parse_unsigned, parse_number, parse_digits,
}
use rust_multichat_server.Bot.Kind.{BotType, Result, ok, err, from_str}
use rust_multichat_server.Bot.Ratio.{
  RatioSpec, check_ratio, parse_part, parse_parts, parse_trimmed, parse, or_fail, ◌>>=◌,
}
use rust_multichat_server.Bot.Ratio.RoundTrip.{IsValid}

parse_digits-le :
    (limit n r : ℕ) (s : Text) → n ≤ limit → parse_digits limit s n ≡ some r → r ≤ limit
unfolding parse_digits
parse_digits-le limit n r [] h e = ground arith
parse_digits-le limit n r (c ∷ s) h e =
    ground (arith, parse_digits-le limit (n * 10 + (c - b'0')) r s)

pub parse_unsigned-le : (limit r : ℕ) (s : Text) → parse_unsigned limit s ≡ some r → r ≤ limit
unfolding parse_unsigned parse_number
parse_unsigned-le limit r [] e = absurd (cc)
parse_unsigned-le limit r (c ∷ []) e = ground (arith, parse_digits-le limit 0 r (c ∷ []))
parse_unsigned-le limit r (c ∷ d ∷ s) e =
    ground (arith, parse_digits-le limit 0 r (d ∷ s), parse_digits-le limit 0 r (c ∷ d ∷ s))

ok-injective : {E A : Type 0} {a b : A} → ◌≡◌ {A = Result E A} (ok a) (ok b) → a ≡ b
ok-injective h = cc

-- A chain that comes to an `ok` has had one in its first part.
passed_on :
    {E A B : Type 0} {f : A → Result E B} {r : B} (first : Result E A)
    → (first >>= f) ≡ ok r
    → (x : A) × (first ≡ ok x) × (f x ≡ ok r)
passed_on (err e) h = absurd (cc)
passed_on (ok x) h = (x, refl, h)

or_fail-eq-ok : {E A : Type 0} (o : Option A) (e : E) {a : A} → or_fail o e ≡ ok a → o ≡ some a
or_fail-eq-ok none e h = absurd (cc)
or_fail-eq-ok (some a) e h = ground arith

check_ratio-valid :
    (t : Text) (b : BotType) (n : ℕ) (e : BotType × ℕ)
    → n ≤ max_u32
    → check_ratio t b n ≡ ok e
    → (0 < e.1) × (e.1 ≤ max_u32)
unfolding check_ratio
check_ratio-valid t b n e small h = ground arith

parse_part-valid :
    (part : Text) (e : BotType × ℕ) → parse_part part ≡ ok e → (0 < e.1) × (e.1 ≤ max_u32)
unfolding parse_part
parse_part-valid part e h =
    let (texts, _, h1) = passed_on (or_fail (split_once b':' part) _) h in
    let (b, _, h2) = passed_on (from_str (trim texts.0)) h1 in
    let (n, number, h3) = passed_on (or_fail (parse_unsigned max_u32 (trim texts.1)) _) h2 in
    check_ratio-valid (trim texts.0) b n e
      (parse_unsigned-le max_u32 n (trim texts.1)
        (or_fail-eq-ok (parse_unsigned max_u32 (trim texts.1)) _ number))
      h3

IsValid-concat :
    (es : List (BotType × ℕ)) (e : BotType × ℕ)
    → IsValid es
    → (0 < e.1) × (e.1 ≤ max_u32)
    → IsValid (es ++ e ∷ [])
IsValid-concat [] e v w = (w.0, w.1, tt)
IsValid-concat ((b, r) ∷ es) e v w = (v.0, v.1, IsValid-concat es e v.2 w)

parse_parts-IsValid :
    (parts : List Text) (acc : List (BotType × ℕ)) (spec : RatioSpec)
    → IsValid acc
    → parse_parts parts acc ≡ ok spec
    → IsValid spec.entries × (length spec.entries ≡ length acc + length parts)
unfolding parse_parts
parse_parts-IsValid [] acc spec v h =
    let e : record { entries = acc } ≡ spec = ok-injective h in
    (
      subst (λ (s : RatioSpec). IsValid s.entries) e v,
      omega (arith, ap (λ (s : RatioSpec). length s.entries) e),
    )
parse_parts-IsValid (part ∷ parts) acc spec v h =
    let (e, h1, h2) = passed_on (parse_part (trim part)) h in
    let (w, n) =
      parse_parts-IsValid parts (acc ++ e ∷ []) spec
        (IsValid-concat acc e v (parse_part-valid (trim part) e h1)) h2 in
    (w, omega (arith, n, length-append acc (e ∷ [])))

parse_trimmed-IsValid :
    (s : Text) (spec : RatioSpec)
    → parse_trimmed s ≡ ok spec
    → (s ≢ []) × IsValid spec.entries × (length spec.entries ≡ length (split b',' s))
unfolding parse_trimmed
parse_trimmed-IsValid [] spec h = absurd (cc)
parse_trimmed-IsValid (c ∷ s) spec h =
    let (v, n) = parse_parts-IsValid (split b',' (c ∷ s)) [] spec tt h in
    (cons-ne-nil c s, v, omega (arith, n))

-- Only a text that is not blank is accepted, with one entry for each of its parts between commas,
-- and every entry has a ratio from 1 to the largest `u32`.
pub parse-IsValid :
    (s : Text) (spec : RatioSpec)
    → parse s ≡ ok spec
    → (trim s ≢ []) × IsValid spec.entries × (length spec.entries ≡ length (split b',' (trim s)))
unfolding parse
parse-IsValid s spec h = parse_trimmed-IsValid (trim s) spec h
