-- ===== src/Strings/Contains.antt =====
-- `str::contains`: where a text is found, and where it is not.
use rust_multichat_server.Base.{
  ℕ, zero, suc, ◌<◌, length, get_or, ◌≡◌, refl, ap, true, false, none, some, List, [], ◌∷◌, ◌++◌,
  ◌==◌, arith, Bool-cases, inl, inr, Option-cases,
}
use rust_multichat_server.Protocol.{Text}
use rust_multichat_server.Strings.{strip_prefix, after_first, contains, join}
use rust_multichat_server.Strings.Decimal.{AllChars}
use rust_multichat_server.Strings.Parts.{is_not}

strip_prefix-append :
    (k s t r : Text) → strip_prefix k s ≡ some r → strip_prefix k (s ++ t) ≡ some (r ++ t)
unfolding strip_prefix
strip_prefix-append [] s t r e = ap (λ o. some (o ++ t)) (cc)
strip_prefix-append (c ∷ k) [] t r e = absurd cc
strip_prefix-append (c ∷ k) (d ∷ s) t r e = elim (Bool-cases (c == d)) [
  | inl same ↦ rw same (strip_prefix-append k s t r (ground arith))
  | inr other ↦ absurd (ground arith)
]

-- What is found in a text is found in a longer one.
pub contains-cons : (k : Text) (c : ℕ) (s : Text) → contains k s ≡ true → contains k (c ∷ s) ≡ true
unfolding contains after_first
contains-cons k c s h = elim (Option-cases (strip_prefix k (c ∷ s))) [
  | inl e ↦ rw (contains, after_first, e) h
  | inr (rest, e) ↦ rw (contains, after_first, e) refl
]

pub contains-right : (k s t : Text) → contains k t ≡ true → contains k (s ++ t) ≡ true
contains-right k [] t h = h
contains-right k (c ∷ s) t h = contains-cons k c (s ++ t) (contains-right k s t h)

contains_nil : (t : Text) → contains [] t ≡ true
unfolding contains after_first strip_prefix
contains_nil [] = refl
contains_nil (c ∷ t) = refl

pub contains-left : (k s t : Text) → contains k s ≡ true → contains k (s ++ t) ≡ true
unfolding contains after_first
contains-left [] s t h = contains_nil (s ++ t)
contains-left (k ∷ ks) [] t h = absurd (unfold strip_prefix in cc)
contains-left (k ∷ ks) (c ∷ s) t h = elim (Option-cases (strip_prefix (k ∷ ks) (c ∷ s))) [
  | inl e ↦ contains-cons (k ∷ ks) c (s ++ t) (contains-left (k ∷ ks) s t (later e))
  | inr (rest, e) ↦ rw (contains, after_first, strip_prefix-append (k ∷ ks) (c ∷ s) t rest e) refl
]
  where
    later : strip_prefix (k ∷ ks) (c ∷ s) ≡ none → contains (k ∷ ks) s ≡ true
    later e = ground arith

-- What one of the parts holds is found in their join.
pub contains-join :
    (k : Text) (sep : ℕ) (ps : List Text) (i : ℕ)
    → i < length ps
    → contains k (get_or ps i []) ≡ true
    → contains k (join sep ps) ≡ true
unfolding join
contains-join k sep [] i l h = absurd (omega arith)
contains-join k sep (p ∷ []) zero l h = h
contains-join k sep (p ∷ []) (suc i) l h = absurd (omega arith)
contains-join k sep (p ∷ q ∷ ps) zero l h = contains-left k p (sep ∷ join sep (q ∷ ps)) h
contains-join k sep (p ∷ q ∷ ps) (suc i) l h =
    contains-right k p _
      (contains-cons k sep (join sep (q ∷ ps)) (contains-join k sep (q ∷ ps) i (omega arith) h))

strip_prefix-other : (c : ℕ) (k s : Text) → AllChars (is_not c) s → strip_prefix (c ∷ k) s ≡ none
unfolding strip_prefix
strip_prefix-other c k [] a = refl
strip_prefix-other c k (d ∷ s) a = ground arith

-- A text without the first character of `k` does not hold `k`.
pub contains_not : (c : ℕ) (k s : Text) → AllChars (is_not c) s → contains (c ∷ k) s ≡ false
unfolding contains after_first
contains_not c k [] a = unfold strip_prefix in refl
contains_not c k (d ∷ s) a =
    rw (contains, after_first, strip_prefix-other c k (d ∷ s) a) (contains_not c k s a.1)
