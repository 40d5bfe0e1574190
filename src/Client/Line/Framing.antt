-- ===== src/Client/Line/Framing.antt =====
-- What the senders of src/tui.rs and src/bot/mod.rs write, read by the server line by line.
use mathlib.Core.Path.{ap₂}
use rust_multichat_server.Base.{
  ℕ, zero, suc, ◌≤◌, ◌≡◌, refl, ap, ◌∙◌, Bool, true, false, Option, none, some, List, [], ◌∷◌, ◌++◌,
  append_assoc, append-nil, map, length, ltb, le→ltb_false, Option-cases, if◌then◌else◌, arith, inl,
  inr,
}
use rust_multichat_server.Client.Line.{
  Bytes, newline, Fill, ReadLine, line, pop_cr, read_line_bounded,
}
use rust_multichat_server.Client.Line.Spec.{
  has_newline, rest_of, shown, bounded_line, bounded_line-terminated, first_line-append,
  has_newline-append, rest_of-append,
}
use rust_multichat_server.Client.Line.Chunks.{IsProper, bytes, read_line_bounded_lem}

-- `send` and `send_msg`: the bytes that are written, where `to_string` may fail, and `written` tells
-- whether the write and the flush come through.
unfoldable pub send_msg : {M : Type 0} → (M → Option Bytes) → Bool → M → Option Bytes
send_msg to_string written msg = elim (to_string msg) [
  | none ↦ none
  | some json ↦ if written then some (json ++ newline ∷ []) else none
]

-- The bytes of messages sent one after another, up to one that cannot be sent.
unfoldable pub send_each : {M : Type 0} → (M → Option Bytes) → List M → Option Bytes
unfolding send_msg
send_each to_string [] = some []
send_each to_string (m ∷ ms) = elim (send_msg to_string true m) [
  | none ↦ none
  | some sent ↦ elim (send_each to_string ms) [ none ↦ none | some rest ↦ some (sent ++ rest) ]
]

-- The lines that `n` calls of the reader give.
unfoldable pub read_lines : ℕ → ℕ → List Fill → List ReadLine × List Fill
read_lines max_len zero reader = ([], reader)
read_lines max_len (suc n) reader =
    let first = read_line_bounded max_len reader in
    let rest = read_lines max_len n first.1 in (first.0 ∷ rest.0, rest.1)

-- A line that the reader gives as it is: no newline, no carriage return at its end, and not too long.
abbrev pub Fits : ℕ → Bytes → Type 0
Fits max_len l = (has_newline l ≡ false) × (pop_cr l ≡ l) × (length l ≤ max_len)

framed :
    (max_len : ℕ) (l s : Bytes)
    → Fits max_len l
    → (bounded_line max_len (l ++ newline ∷ s) ≡ line l) × (rest_of (l ++ newline ∷ s) ≡ s)
framed max_len l s (plain, same, short) =
    let found = has_newline-append l (newline ∷ s) plain in
    let first = first_line-append l (newline ∷ s) plain ∙ append-nil l in
    let fits : ltb max_len (length l) ≡ false = le→ltb_false max_len (length l) short in
    let seen : shown max_len l true ≡ line l = rw (fits, same) refl in
    (
      bounded_line-terminated max_len (l ++ newline ∷ s) found
          ∙ ap (λ (k : Bytes). shown max_len k true) first
          ∙ seen,
      rest_of-append l (newline ∷ s) plain,
    )

-- The encodings of the messages, where there are any, fit a line.
abbrev pub AllFit : {M : Type 0} → ℕ → (M → Option Bytes) → List M → Type 0
AllFit max_len to_string [] = Unit
AllFit max_len to_string (m ∷ ms) =
    ((json : Bytes) → to_string m ≡ some json → Fits max_len json) × AllFit max_len to_string ms

send_each-some :
    {M : Type 0} (to_string : M → Option Bytes) (m : M) (ms : List M) (sent : Bytes)
    → send_each to_string (m ∷ ms) ≡ some sent
    → (json : Bytes) × (more : Bytes) × (to_string m ≡ some json)
      × (send_each to_string ms ≡ some more)
      × (sent ≡ (json ++ newline ∷ []) ++ more)
unfolding send_each send_msg
send_each-some to_string m ms sent e = elim (Option-cases (to_string m)) [
  | inl failed ↦ absurd (ground arith)
  | inr (json, encoded) ↦ elim (Option-cases (send_each to_string ms)) [
    | inl failed ↦ absurd (ground arith)
    | inr (more, rest) ↦ (json, more, encoded, rest, ground arith)
  ]
]

none_sent :
    {M : Type 0} (to_string : M → Option Bytes) (sent : Bytes)
    → send_each to_string [] ≡ some sent
    → sent ≡ []
unfolding send_each
none_sent to_string sent e = cc

module _ {M : Type 0} (to_string : M → Option Bytes) (from_str : Bytes → Option M) where
  -- Messages whose encodings are read back as they were written and fit a line, sent one after
  -- another and then followed by any other bytes, come out of the server's line reader in their
  -- order, each by one call, whichever way the stream is cut into chunks; the reader is then just
  -- behind the last of them.
  pub messages_read_back :
      (max_len : ℕ) (ms : List M) (sent rest : Bytes) (reader : List Fill)
      → ((m : M) (json : Bytes) → to_string m ≡ some json → from_str json ≡ some m)
      → AllFit max_len to_string ms
      → send_each to_string ms ≡ some sent
      → IsProper reader
      → bytes reader ≡ sent ++ rest
      → (lines : List Bytes) × ((read_lines max_len (length ms) reader).0 ≡ map line lines)
        × (map from_str lines ≡ map some ms)
        × (bytes (read_lines max_len (length ms) reader).1 ≡ rest)
  unfolding read_lines
  messages_read_back max_len [] sent rest reader read_back fit e proper stream =
      ([], refl, refl, stream ∙ ap (λ (s : Bytes). s ++ rest) (none_sent to_string sent e))
  messages_read_back max_len (m ∷ ms) sent rest reader read_back fit e proper stream =
      let (json, more, encoded, going, whole) = send_each-some to_string m ms sent e in
      let split : bytes reader ≡ json ++ newline ∷ (more ++ rest) =
        stream
        ∙ ap (λ (s : Bytes). s ++ rest) whole
        ∙ append_assoc (json ++ newline ∷ []) more rest
        ∙ append_assoc json (newline ∷ []) (more ++ rest) in
      let (shown_line, behind) = framed max_len json (more ++ rest) (fit.0 json encoded) in
      let (first, left, proper') = read_line_bounded_lem max_len reader proper in
      let (lines, read, decoded, after) =
        messages_read_back max_len ms more rest (read_line_bounded max_len reader).1 read_back fit.1
          going proper' (left ∙ ap rest_of split ∙ behind) in
      (
        json ∷ lines,
        ap₂ ◌∷◌ (first ∙ ap (bounded_line max_len) split ∙ shown_line) read,
        ap₂ ◌∷◌ (read_back m json encoded) decoded,
        after,
      )
