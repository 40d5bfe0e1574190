-- ===== src/Client/Line/Chunks.antt =====
-- The line reader does not depend on how the stream is cut into chunks.
use mathlib.Core.Path.{subst}
use native.Mathlib.Decide.{dec_le}
use rust_multichat_server.Base.{
  ℕ, suc, ◌+◌, ◌-◌, ◌≤◌, ◌<◌, ◌≡◌, refl, sym, ap, ◌∙◌, min, Bool, true, false, some, List, [], ◌∷◌,
  ◌++◌, append_assoc, append-nil, ltb, length, take, drop, arith, inl, inr, Bool-cases,
  Option-cases, take-all, take-append_left, take-append_right, take-take_less, length-append,
  le→ltb_false, lt→ltb, ltb→lt,
}
use rust_multichat_server.Client.Line.{
  Bytes, Fill, chunk, failed, ReadLine, position, append_bounded, at_end, at_newline, put_back,
  consume, read_loop, read_line_bounded,
}
use rust_multichat_server.Client.Line.Spec.{
  has_newline, bounded_line, rest_of, first_line-append, has_newline-append, rest_of-append, shown,
  first_line-all, first_line-found, has_newline-found, rest_of-found, rest_of-none,
  bounded_line-terminated, position-none, position-some,
}

-- A stream that ends without an error, cut into chunks none of which is empty.
abbrev pub IsProper : List Fill → Type 0
IsProper [] = Unit
IsProper (failed ∷ rest) = ⊥
IsProper (chunk [] ∷ rest) = ⊥
IsProper (chunk (c ∷ cs) ∷ rest) = IsProper rest

abbrev pub bytes : List Fill → Bytes
bytes [] = []
bytes (failed ∷ rest) = bytes rest
bytes (chunk cs ∷ rest) = cs ++ bytes rest

-- The buffer and the flag after the bytes `p` of the line.
abbrev held : ℕ → Bytes → Bytes × Bool
held max_len p = (take max_len p, ltb max_len (length p))

take-take_bounded :
    (n k : ℕ) (part : Bytes) → length (take n part) ≡ n → take k (take n part) ≡ take (min n k) part
take-take_bounded n k part h = elim (dec_le k n) [
  | yes less ↦ let m : min n k ≡ k = omega arith in rw m (take-take_less k n part less)
  | no more ↦ let m : min n k ≡ n = omega arith in rw m (take-all k (take n part) (omega arith))
]

append_room :
    (k : ℕ) (p part : Bytes) (n : ℕ)
    → length (take n part) ≡ n
    → append_bounded (length p + k) part n p false ≡ held (length p + k) (p ++ take n part)
unfolding append_bounded
append_room k p part n h =
    let room : length p + k - length p ≡ k = omega arith in
    rw
      (
        room,
        take-append_right k p (take n part),
        take-take_bounded n k part h,
        length-append p (take n part),
        h,
      )
      (ap (λ (b : Bool). (p ++ take (min n k) part, b)) (ground arith))

append_bounded-held :
    (max_len : ℕ) (p part : Bytes) (n : ℕ)
    → length (take n part) ≡ n
    → append_bounded max_len part n (take max_len p) (ltb max_len (length p))
      ≡ held max_len (p ++ take n part)
unfolding append_bounded
append_bounded-held max_len p part n h = elim (Bool-cases (ltb max_len (length p))) [
  | inl over ↦
      let long : max_len < length p = ltb→lt _ _ over in
      rw (
        over,
        take-append_left max_len p (take n part) (omega arith),
        length-append p (take n part),
        h,
        lt→ltb max_len (length p + n) (omega arith),
      )
  | inr fits ↦
      let short : length p ≤ max_len = ground arith in
      let room : max_len ≡ length p + (max_len - length p) = omega arith in
      rw (take-all max_len p short, fits)
        (subst (λ m. append_bounded m part n p false ≡ held m (p ++ take n part)) (sym room)
          (append_room (max_len - length p) p part n h))
]

at_end-short :
    (p : Bytes)
    → has_newline p ≡ false
    → (max_len : ℕ) → length p ≤ max_len
    → at_end p false ≡ bounded_line max_len p
unfolding at_end
at_end-short [] h max_len short = refl
at_end-short (c ∷ p) h max_len short =
    rw (first_line-all (c ∷ p) h, h, le→ltb_false max_len (suc (length p)) short)

at_end-held :
    (max_len : ℕ) (p : Bytes)
    → has_newline p ≡ false
    → at_end (take max_len p) (ltb max_len (length p)) ≡ bounded_line max_len p
at_end-held max_len [] h =
    rw (take-all {A = ℕ} max_len [] (omega arith), le→ltb_false max_len 0 (omega arith))
      (at_end-short [] h max_len (omega arith))
at_end-held max_len (c ∷ p) h = elim (Bool-cases (ltb max_len (length (c ∷ p)))) [
  | inl over ↦ rw (first_line-all (c ∷ p) h, over) (unfold at_end in refl)
  | inr fits ↦
      rw (take-all max_len (c ∷ p) (ground arith), fits)
        (at_end-short (c ∷ p) h max_len (ground arith))
]

at_newline-held : (max_len : ℕ) (p : Bytes) → at_newline (held max_len p) ≡ shown max_len p true
unfolding at_newline
at_newline-held max_len p = elim (Bool-cases (ltb max_len (length p))) [
  | inl over ↦ rw over
  | inr fits ↦ rw (take-all max_len p (ground arith), fits)
]

bytes-put_back : (cs : Bytes) (rest : List Fill) → bytes (put_back cs rest) ≡ cs ++ bytes rest
unfolding put_back
bytes-put_back [] rest = refl
bytes-put_back (c ∷ cs) rest = refl

put_back-IsProper : (cs : Bytes) (rest : List Fill) → IsProper rest → IsProper (put_back cs rest)
unfolding put_back
put_back-IsProper [] rest h = h
put_back-IsProper (c ∷ cs) rest h = h

-- What a reader gives where the bytes `p` of its line have been read before.
abbrev Reads : ℕ → Bytes → ReadLine × List Fill → Type 0
Reads max_len s r = (r.0 ≡ bounded_line max_len s) × (bytes r.1 ≡ rest_of s) × IsProper r.1

-- The newline is in the chunk `cs`.
newline-Reads :
    (max_len : ℕ) (p cs : Bytes) (pos : ℕ) (rest : List Fill)
    → has_newline p ≡ false
    → position cs ≡ some pos
    → IsProper rest
    → Reads max_len (p ++ (cs ++ bytes rest)) (
      at_newline (append_bounded max_len cs pos (take max_len p) (ltb max_len (length p))),
      consume (suc pos) cs rest,
    )
unfolding consume
newline-Reads max_len p cs pos rest h e proper =
    let (line_eq, rest_eq, found, _, n) = position-some cs pos e in
    let ahead : has_newline (cs ++ bytes rest) ≡ true = has_newline-found cs (bytes rest) found in
    (
      rw (
        append_bounded-held max_len p cs pos n,
        at_newline-held,
        bounded_line-terminated max_len _ (has_newline-append p (cs ++ bytes rest) h ∙ ahead),
        first_line-append p (cs ++ bytes rest) h,
        first_line-found cs (bytes rest) found,
        line_eq,
      ),
      rw (
        bytes-put_back (drop (suc pos) cs) rest,
        rest_of-append p (cs ++ bytes rest) h,
        rest_of-found cs (bytes rest) found,
        rest_eq,
      ),
      put_back-IsProper (drop (suc pos) cs) rest proper,
    )

read_loop-Reads :
    (max_len : ℕ) (p : Bytes) (reader : List Fill)
    → has_newline p ≡ false
    → IsProper reader
    → Reads max_len
        (p ++ bytes reader)
        (read_loop max_len reader (take max_len p) (ltb max_len (length p)))
unfolding read_loop
read_loop-Reads max_len p [] h proper =
    rw append-nil (at_end-held max_len p h, sym (rest_of-none p h), tt)
read_loop-Reads max_len p (failed ∷ rest) h proper = elim proper [ ]
read_loop-Reads max_len p (chunk [] ∷ rest) h proper = elim proper [ ]
read_loop-Reads max_len p (chunk (c ∷ cs) ∷ rest) h proper =
    elim (Option-cases (position (c ∷ cs))) [
      | inr (pos, e) ↦ rw (e, read_loop) (newline-Reads max_len p (c ∷ cs) pos rest h e proper)
      | inl e ↦
          let whole : take (length (c ∷ cs)) (c ∷ cs) ≡ c ∷ cs =
            take-all (length (c ∷ cs)) (c ∷ cs) (omega arith) in
          let grown : append_bounded max_len (c ∷ cs) (length (c ∷ cs)) (take max_len p)
                (ltb max_len (length p))
              ≡ held max_len (p ++ c ∷ cs) =
            append_bounded-held max_len p (c ∷ cs) _ (ap length whole)
            ∙ ap (λ (q : Bytes). held max_len (p ++ q)) whole in
          let ih =
            read_loop-Reads max_len (p ++ c ∷ cs) rest
              (has_newline-append p (c ∷ cs) h ∙ position-none (c ∷ cs) e) proper in
          rw (e, read_loop, grown) (rw (append_assoc p (c ∷ cs) (bytes rest)) at ih)
    ]

-- On a stream that ends without an error, and whichever way it is cut into non-empty chunks, the
-- reader gives the first line of the stream less its carriage return, the empty line if that is
-- longer than `max_len` bytes, or the end of the stream if there is no byte; it leaves the stream
-- just behind that line's newline, cut into non-empty chunks again.
pub read_line_bounded_lem :
    (max_len : ℕ) (reader : List Fill)
    → IsProper reader
    → ((read_line_bounded max_len reader).0 ≡ bounded_line max_len (bytes reader))
      × (bytes (read_line_bounded max_len reader).1 ≡ rest_of (bytes reader))
      × IsProper (read_line_bounded max_len reader).1
unfolding read_line_bounded
read_line_bounded_lem max_len reader proper =
    let start : take {A = ℕ} max_len [] ≡ [] = take-all max_len [] (omega arith) in
    let fits : ltb max_len 0 ≡ false = le→ltb_false max_len 0 (omega arith) in
    rw (start, fits) at (read_loop-Reads max_len [] reader refl proper)
