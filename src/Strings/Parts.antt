-- ===== src/Strings/Parts.antt =====
-- Joined parts are split apart again.
use rust_multichat_server.Base.{
  ℕ, ◌≡◌, refl, ap, ◌∙◌, Bool, some, List, [], ◌∷◌, ◌++◌, arith, ◌==◌, not,
}
use rust_multichat_server.Protocol.{Text}
use rust_multichat_server.Strings.{split, split_once, join}
use rust_multichat_server.Strings.Decimal.{AllChars}

abbrev pub is_not : ℕ → ℕ → Bool
is_not sep c = not (c == sep)

-- Every part is free of the separator.
abbrev pub AllParts : ℕ → List Text → Type 0
AllParts sep [] = Unit
AllParts sep (p ∷ ps) = AllChars (is_not sep) p × AllParts sep ps

pub split-plain : (sep : ℕ) (p : Text) → AllChars (is_not sep) p → split sep p ≡ p ∷ []
unfolding split
split-plain sep [] a = refl
split-plain sep (c ∷ p) a = ground (arith, split-plain sep p a.1)

split-append :
    (sep : ℕ) (p s : Text) → AllChars (is_not sep) p → split sep (p ++ (sep ∷ s)) ≡ p ∷ split sep s
unfolding split
split-append sep [] s a = ground arith
split-append sep (c ∷ p) s a = ground (arith, split-append sep p s a.1)

-- One or more parts that are free of the separator are split apart again.
pub split-join :
    (sep : ℕ) (p : Text) (ps : List Text)
    → AllParts sep (p ∷ ps)
    → split sep (join sep (p ∷ ps)) ≡ p ∷ ps
unfolding join
split-join sep p [] a = split-plain sep p a.0
split-join sep p (q ∷ ps) a =
    split-append sep p (join sep (q ∷ ps)) a.0 ∙ ap (◌∷◌ p) (split-join sep q ps a.1)

pub split_once-append :
    (sep : ℕ) (p s : Text) → AllChars (is_not sep) p → split_once sep (p ++ (sep ∷ s)) ≡ some (p, s)
unfolding split_once
split_once-append sep [] s a = ground arith
split_once-append sep (c ∷ p) s a = rw (split_once-append sep p s a.1) (ground arith)
