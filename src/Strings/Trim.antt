-- ===== src/Strings/Trim.antt =====
-- A text with no whitespace is trimmed to itself.
use rust_multichat_server.Base.{ℕ, ◌≡◌, refl, ap, ◌∙◌, Bool, true, [], ◌∷◌, arith, not}
use rust_multichat_server.Protocol.{Text}
use rust_multichat_server.Strings.{is_whitespace, trim_start, put_front, trim_end, trim}
use rust_multichat_server.Strings.Decimal.{AllChars}

abbrev pub is_dark : ℕ → Bool
is_dark c = not (is_whitespace c)

trim_end-dark : (s : Text) → AllChars is_dark s → trim_end s ≡ s
unfolding trim_end
trim_end-dark [] a = refl
trim_end-dark (c ∷ s) a = rw (trim_end-dark s a.1) (put_front-dark c s a.0)
  where
    put_front-dark : (c : ℕ) (s : Text) → is_dark c ≡ true → put_front c s ≡ c ∷ s
    put_front-dark c [] h = ground arith
    put_front-dark c (d ∷ s) h = refl

trim_start-dark : (c : ℕ) (s : Text) → is_dark c ≡ true → trim_start (c ∷ s) ≡ c ∷ s
unfolding trim_start
trim_start-dark c s h = ground arith

pub trim-dark : (s : Text) → AllChars is_dark s → trim s ≡ s
unfolding trim
trim-dark [] a = refl
trim-dark (c ∷ s) a = ap trim_end (trim_start-dark c s a.0) ∙ trim_end-dark (c ∷ s) a
