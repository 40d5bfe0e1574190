-- ===== src/Client/Line.antt =====
-- `read_line_bounded` of src/client.rs. A reader is the list of what its `fill_buf` has yet to
-- give; the end of the list, like an empty chunk, is the end of the stream. A line is its bytes:
-- the handler passes them on to `String::from_utf8_lossy`.
pub mod Spec
pub mod Chunks
pub mod Framing
use mathlib.Core.Option
use rust_multichat_server.Base.{
  ℕ, suc, ◌+◌, ◌-◌, ◌≡◌, refl, min, Bool, true, false, Option, none, some, List, [], ◌∷◌, ◌++◌,
  if◌then◌else◌, ltb, ◌==◌, length, take, drop,
}

abbrev pub Bytes : Type 0
Bytes = List ℕ

abbrev pub newline : ℕ
newline = b'\n'

abbrev pub carriage_return : ℕ
carriage_return = b'\r'

pub data Fill : Type 0 where
  chunk : Bytes → Fill
  failed : Fill

pub data ReadLine : Type 0 where
  line : Bytes → ReadLine  -- Ok(Some(line))
  end_of_stream : ReadLine  -- Ok(None)
  io_error : ReadLine  -- Err(e)

-- `chunk.iter().position(|&b| b == b'\n')`.
unfoldable pub position : Bytes → Option ℕ
position [] = none
position (c ∷ cs) = if c == newline then some 0 else Option.map suc (position cs)

-- `if buf.last() == Some(&b'\r') { buf.pop(); }`.
unfoldable pub pop_cr : Bytes → Bytes
pop_cr [] = []
pop_cr (c ∷ []) = if c == carriage_return then [] else c ∷ []
pop_cr (c ∷ d ∷ cs) = c ∷ pop_cr (d ∷ cs)

-- The `if !overflow` block: the first `n` bytes of the chunk, as far as there is room.
unfoldable pub append_bounded : ℕ → Bytes → ℕ → Bytes → Bool → Bytes × Bool
append_bounded max_len part n buf overflow =
    if overflow
    then (buf, overflow)
    else (let avail = max_len - length buf in (buf ++ take (min n avail) part, ltb avail n))

unfoldable pub at_end : Bytes → Bool → ReadLine
at_end buf true = line []
at_end [] false = end_of_stream
at_end (b ∷ buf) false = line (b ∷ buf)

-- The result when the newline has been found.
unfoldable pub at_newline : Bytes × Bool → ReadLine
unfolding pop_cr
at_newline (buf, overflow) = if overflow then line [] else line (pop_cr buf)

-- `reader.consume(n)`: what is left of the chunk is given again.
unfoldable pub put_back : Bytes → List Fill → List Fill
put_back [] rest = rest
put_back (c ∷ cs) rest = chunk (c ∷ cs) ∷ rest

unfoldable pub consume : ℕ → Bytes → List Fill → List Fill
unfolding put_back
consume n bytes rest = put_back (drop n bytes) rest

unfoldable pub read_loop : ℕ → List Fill → Bytes → Bool → ReadLine × List Fill
unfolding position append_bounded at_end at_newline consume
read_loop max_len [] buf overflow = (at_end buf overflow, [])
read_loop max_len (failed ∷ rest) buf overflow = (io_error, rest)
read_loop max_len (chunk [] ∷ rest) buf overflow = (at_end buf overflow, rest)
read_loop max_len (chunk (c ∷ cs) ∷ rest) buf overflow = elim (position (c ∷ cs)) [
  | some pos ↦ (
    at_newline (append_bounded max_len (c ∷ cs) pos buf overflow),
    consume (suc pos) (c ∷ cs) rest,
  )
  | none ↦
      let grown = append_bounded max_len (c ∷ cs) (length (c ∷ cs)) buf overflow in
      read_loop max_len rest grown.0 grown.1
]

unfoldable pub read_line_bounded : ℕ → List Fill → ReadLine × List Fill
unfolding read_loop
read_line_bounded max_len reader = read_loop max_len reader [] false
