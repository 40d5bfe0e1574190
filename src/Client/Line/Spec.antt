-- ===== src/Client/Line/Spec.antt =====
-- What a bounded line is, said of the whole stream of bytes.
use rust_multichat_server.Base.{
  ℕ, zero, suc, ◌≤◌, ◌≡◌, refl, Bool, true, false, none, some, [], ◌∷◌, ◌++◌, if◌then◌else◌, ltb,
  ◌==◌, length, take, drop, arith, Option-cases, inl, inr,
}
use rust_multichat_server.Client.Line.{
  Bytes, newline, ReadLine, line, end_of_stream, position, pop_cr,
}

-- The bytes up to the first newline.
abbrev pub first_line : Bytes → Bytes
first_line [] = []
first_line (c ∷ s) = if c == newline then [] else c ∷ first_line s

abbrev pub has_newline : Bytes → Bool
has_newline [] = false
has_newline (c ∷ s) = if c == newline then true else has_newline s

-- The line `l` as it is given: less a carriage return before its newline, if it has one, and as
-- the empty line if it is longer than `max_len`.
abbrev pub shown : ℕ → Bytes → Bool → ReadLine
shown max_len l terminated =
    if ltb max_len (length l) then line [] else if terminated then line (pop_cr l) else line l

-- The stream ends where no byte is left.
abbrev pub bounded_line : ℕ → Bytes → ReadLine
bounded_line max_len [] = end_of_stream
bounded_line max_len (c ∷ s) = shown max_len (first_line (c ∷ s)) (has_newline (c ∷ s))

abbrev pub rest_of : Bytes → Bytes
rest_of [] = []
rest_of (c ∷ s) = if c == newline then s else rest_of s

-- `bounded_line` where `p` has been read, holds no newline, and `s` is to come.
pub first_line-append :
    (p s : Bytes) → has_newline p ≡ false → first_line (p ++ s) ≡ p ++ first_line s
first_line-append [] s h = refl
first_line-append (c ∷ p) s h = ground (arith, first_line-append p s)

pub has_newline-append :
    (p s : Bytes) → has_newline p ≡ false → has_newline (p ++ s) ≡ has_newline s
has_newline-append [] s h = refl
has_newline-append (c ∷ p) s h = ground (arith, has_newline-append p s)

pub rest_of-append : (p s : Bytes) → has_newline p ≡ false → rest_of (p ++ s) ≡ rest_of s
rest_of-append [] s h = refl
rest_of-append (c ∷ p) s h = ground (arith, rest_of-append p s)

pub position-none : (s : Bytes) → position s ≡ none → has_newline s ≡ false
unfolding position
position-none [] h = refl
position-none (c ∷ s) h = ground (arith, position-none s)

-- Where `position` finds the newline.
pub position-some :
    (s : Bytes) (pos : ℕ)
    → position s ≡ some pos
    → (first_line s ≡ take pos s)
      × (rest_of s ≡ drop (suc pos) s)
      × (has_newline s ≡ true)
      × (pos ≤ length s)
      × (length (take pos s) ≡ pos)
unfolding position
position-some [] pos h = absurd (cc)
position-some (c ∷ s) zero h = ground arith
position-some (c ∷ s) (suc pos) h = elim (Option-cases (position s)) [
  | inl e ↦ ground arith
  | inr (k, e) ↦ ground (arith, position-some s pos)
]

pub first_line-all : (p : Bytes) → has_newline p ≡ false → first_line p ≡ p
first_line-all [] h = refl
first_line-all (c ∷ p) h = ground (arith, first_line-all p)

-- What follows a newline does not matter.
pub first_line-found : (p s : Bytes) → has_newline p ≡ true → first_line (p ++ s) ≡ first_line p
first_line-found [] s h = absurd (cc)
first_line-found (c ∷ p) s h = ground (arith, first_line-found p s)

pub has_newline-found : (p s : Bytes) → has_newline p ≡ true → has_newline (p ++ s) ≡ true
has_newline-found [] s h = absurd (cc)
has_newline-found (c ∷ p) s h = ground (arith, has_newline-found p s)

pub rest_of-found : (p s : Bytes) → has_newline p ≡ true → rest_of (p ++ s) ≡ rest_of p ++ s
rest_of-found [] s h = absurd (cc)
rest_of-found (c ∷ p) s h = ground (arith, rest_of-found p s)

pub rest_of-none : (p : Bytes) → has_newline p ≡ false → rest_of p ≡ []
rest_of-none [] h = refl
rest_of-none (c ∷ p) h = ground (arith, rest_of-none p)

pub bounded_line-terminated :
    (max_len : ℕ) (s : Bytes)
    → has_newline s ≡ true
    → bounded_line max_len s ≡ shown max_len (first_line s) true
bounded_line-terminated max_len [] h = absurd (cc)
bounded_line-terminated max_len (c ∷ s) h = rw h
