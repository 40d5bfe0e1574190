-- ===== src/Strings/Decimal.antt =====
-- Numbers are read back from their decimal print.
use mathlib.Core.List.{cons-ne-nil}
use rust_multichat_server.Base.{
  ℕ, zero, suc, ◌+◌, ◌-◌, ◌*◌, ◌/◌, ◌%◌, ◌≤◌, ◌<◌, ◌≡◌, ◌≢◌, refl, ◌∙◌, Bool, true, false, some, [],
  ◌∷◌, ◌==◌, arith, Bool-cases, inl, inr,
}
use rust_multichat_server.Protocol.{Text}
use rust_multichat_server.Strings.{is_digit, parse_digits, parse_unsigned, digits, to_string}

-- Every character passes the test.
abbrev pub AllChars : (ℕ → Bool) → Text → Type 0
AllChars p [] = Unit
AllChars p (c ∷ s) = (p c ≡ true) × AllChars p s

parse_last :
    (limit n : ℕ) (out : Text)
    → n ≤ limit
    → parse_digits limit ((b'0' + n % 10) ∷ out) (n / 10) ≡ parse_digits limit out n
unfolding parse_digits
parse_last limit n out h =
    let e : n / 10 * 10 + (b'0' + n % 10 - b'0') ≡ n = omega arith in ground arith

parse_digits-digits :
    (limit f n : ℕ) (out : Text)
    → n < f
    → n ≤ limit
    → parse_digits limit (digits f n out) 0 ≡ parse_digits limit out n
unfolding digits
parse_digits-digits limit zero n out h k = absurd (omega arith)
parse_digits-digits limit (suc f) n out h k = elim (Bool-cases (n == 0)) [
  | inl e ↦ ground arith
  | inr e ↦ rw e (
      parse_digits-digits limit f (n / 10) ((b'0' + n % 10) ∷ out) (ground arith) (omega arith)
      ∙ parse_last limit n out k)
]

digits-AllChars :
    (p : ℕ → Bool)
    → ((d : ℕ) → d < 10 → p (b'0' + d) ≡ true)
    → (f n : ℕ) (out : Text) → AllChars p out
    → AllChars p (digits f n out)
unfolding digits
digits-AllChars p h zero n out a = a
digits-AllChars p h (suc f) n out a = elim (Bool-cases (n == 0)) [
  | inl e ↦ rw e a
  | inr e ↦
      rw e (digits-AllChars p h f (n / 10) ((b'0' + n % 10) ∷ out) (h (n % 10) (omega arith), a))
]

-- A print is made of digits.
pub to_string-AllChars :
    (p : ℕ → Bool) → ((d : ℕ) → d < 10 → p (b'0' + d) ≡ true) → (n : ℕ) → AllChars p (to_string n)
unfolding to_string
to_string-AllChars p h n = elim (Bool-cases (n == 0)) [
  | inl e ↦ rw e (h 0 (omega arith), tt)
  | inr e ↦ rw e (digits-AllChars p h n (n / 10) _ (h (n % 10) (omega arith), tt))
]

digits-ne-nil : (f n : ℕ) (out : Text) → out ≢ [] → digits f n out ≢ []
unfolding digits
digits-ne-nil zero n out h = h
digits-ne-nil (suc f) n out h = elim (Bool-cases (n == 0)) [
  | inl e ↦ rw e h
  | inr e ↦ rw e (digits-ne-nil f (n / 10) _ (cons-ne-nil _ out))
]

pub to_string-ne-nil : (n : ℕ) → to_string n ≢ []
unfolding to_string digits
to_string-ne-nil n = elim (Bool-cases (n == 0)) [
  | inl e ↦ rw e (cons-ne-nil _ [])
  | inr e ↦ rw e (digits-ne-nil n (n / 10) _ (cons-ne-nil _ []))
]

parse_unsigned-digits :
    (limit : ℕ) (s : Text)
    → s ≢ []
    → AllChars is_digit s
    → parse_unsigned limit s ≡ parse_digits limit s 0
unfolding parse_unsigned is_digit
parse_unsigned-digits limit [] h a = absurd (h refl)
parse_unsigned-digits limit (c ∷ s) h a = ground arith

digit_chars : (d : ℕ) → d < 10 → is_digit (b'0' + d) ≡ true
unfolding is_digit
digit_chars d h = ground arith

to_string-digits : (n : ℕ) → (n == 0) ≡ false → to_string n ≡ digits (suc n) n []
unfolding to_string
to_string-digits n e = ground arith

parse_digits-to_string : (limit n : ℕ) → n ≤ limit → parse_digits limit (to_string n) 0 ≡ some n
parse_digits-to_string limit n h = elim (Bool-cases (n == 0)) [
  | inl e ↦ unfold to_string parse_digits in ground arith
  | inr e ↦
      rw (to_string-digits n e)
        (parse_digits-digits limit (suc n) n [] (omega arith) h ∙ unfold parse_digits in refl)
]

-- Every number up to the limit of its type is read back from its print.
pub parse_unsigned-to_string :
    (limit n : ℕ) → n ≤ limit → parse_unsigned limit (to_string n) ≡ some n
parse_unsigned-to_string limit n h =
    parse_unsigned-digits limit (to_string n) (to_string-ne-nil n)
      (to_string-AllChars is_digit digit_chars n)
    ∙ parse_digits-to_string limit n h
