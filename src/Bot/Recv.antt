-- ===== src/Bot/Recv.antt =====
-- `recv_until_count_with_timeout` of src/bot/mod.rs. The events are the lines that come, until the
-- stream ends, a read fails, or the time is over.
use rust_multichat_server.Base.{
  ℕ, ◌+◌, ◌%◌, ◌^◌, ◌<◌, ◌≡◌, ◌∙◌, min, max, Bool, List, [], ◌∷◌, if◌then◌else◌, leb, Bool-cases,
  inl, inr, arith,
}
use rust_multichat_server.Protocol.{Text}

pub data Recv : Type 0 where
  line : Text → Recv
  ended : Recv  -- no line, a failed read, or the timeout

-- `on_match` is the callback, with the state that it changes; `contains` is `line.contains(target)`.
module _ {S : Type 0} (on_match : Text → S → S) (contains : Text → Bool) where
  unfoldable pub recv_lines : ℕ → List Recv → ℕ → S → ℕ × S
  recv_lines msg_count [] count s = (count, s)
  recv_lines msg_count (ended ∷ es) count s = (count, s)
  recv_lines msg_count (line l ∷ es) count s =
      let rest = recv_lines msg_count es ((count + 1) % 2 ^ 64) (on_match l s) in
      let skipped = recv_lines msg_count es count s in
      if contains l
      then (if leb msg_count ((count + 1) % 2 ^ 64)
          then ((count + 1) % 2 ^ 64, on_match l s)
          else rest)
      else skipped

  unfoldable pub recv_until_count : ℕ → List Recv → S → ℕ × S
  unfolding recv_lines
  recv_until_count msg_count es s = recv_lines msg_count es 0 s

  -- How many of the lines before the end match.
  abbrev pub matches : List Recv → ℕ
  matches [] = 0
  matches (ended ∷ es) = 0
  matches (line l ∷ es) = (if contains l then 1 else 0) + matches es

  recv_lines-count :
      (msg_count : ℕ) (es : List Recv) (count : ℕ) (s : S)
      → msg_count < 2 ^ 64
      → count < max 1 msg_count
      → (recv_lines msg_count es count s).0 ≡ min (count + matches es) (max 1 msg_count)
  unfolding recv_lines
  recv_lines-count msg_count [] count s small below = omega arith
  recv_lines-count msg_count (ended ∷ es) count s small below = omega arith
  recv_lines-count msg_count (line l ∷ es) count s small below = elim (Bool-cases (contains l)) [
    | inl matched ↦ elim (Bool-cases (leb msg_count ((count + 1) % 2 ^ 64))) [
      | inl enough ↦ ground arith
      | inr more ↦
          let few : count + 1 < max 1 msg_count = ground arith in
          ground (
            arith,
            recv_lines-count msg_count es ((count + 1) % 2 ^ 64) (on_match l s) small (omega arith),
          )
    ]
    | inr other ↦ rw other (recv_lines-count msg_count es count s small below ∙ omega arith)
  ]

  -- The count that is returned is the number of matching lines before the end, up to `msg_count`;
  -- for a `msg_count` of 0 it is up to 1, since the count is only compared after a match.
  pub recv_until_count_lem :
      (msg_count : ℕ) (es : List Recv) (s : S)
      → msg_count < 2 ^ 64
      → (recv_until_count msg_count es s).0 ≡ min (matches es) (max 1 msg_count)
  unfolding recv_until_count
  recv_until_count_lem msg_count es s small =
      recv_lines-count msg_count es 0 s small (omega arith) ∙ omega arith
