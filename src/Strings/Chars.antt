-- ===== src/Strings/Chars.antt =====
-- Texts whose characters all pass a test.
use rust_multichat_server.Base.{ℕ, ◌≡◌, refl, Bool, true, [], ◌∷◌, ◌++◌, ◌&&◌, ==_refl, arith}
use rust_multichat_server.Protocol.{Text}
use rust_multichat_server.Strings.{text_eq}
use rust_multichat_server.Strings.Decimal.{AllChars}

pub AllChars-append :
    (p : ℕ → Bool) (s t : Text) → AllChars p s → AllChars p t → AllChars p (s ++ t)
AllChars-append p [] t a b = b
AllChars-append p (c ∷ s) t a b = (a.0, AllChars-append p s t a.1 b)

pub AllChars-weaken :
    (p q : ℕ → Bool)
    → ((c : ℕ) → p c ≡ true → q c ≡ true)
    → (s : Text) → AllChars p s
    → AllChars q s
AllChars-weaken p q h [] a = tt
AllChars-weaken p q h (c ∷ s) a = (h c a.0, AllChars-weaken p q h s a.1)

abbrev pub test_all : (ℕ → Bool) → Text → Bool
test_all p [] = true
test_all p (c ∷ s) = p c && test_all p s

pub test_all-AllChars : (p : ℕ → Bool) (s : Text) → test_all p s ≡ true → AllChars p s
test_all-AllChars p [] h = tt
test_all-AllChars p (c ∷ s) h = (ground arith, test_all-AllChars p s (ground arith))

pub text_eq_refl : (s : Text) → text_eq s s ≡ true
unfolding text_eq
text_eq_refl [] = refl
text_eq_refl (c ∷ s) = rw (==_refl c) (text_eq_refl s)
