-- ===== src/Tui/Render/Shown.antt =====
-- What the parts of the frame show, where no sum of theirs leaves its type.
use Prim.Native.Nat.add
use rust_multichat_server.Base.{
  ℕ, zero, suc, ◌+◌, ◌-◌, ◌*◌, ◌/◌, ◌%◌, ◌^◌, ◌<◌, ◌≡◌, refl, ap, ◌∙◌, Bool, true, some, List, [],
  ◌∷◌, sym, take-all, take, drop, length, sum, get_elem?, checked, checked-lt, holds, ltb,
  Bool-cases, inl, inr, arith,
}
use rust_multichat_server.Protocol.{Text}
use rust_multichat_server.Tui.{AppState}
use rust_multichat_server.Tui.Render.{
  row_h, Row, sum_votes, char_width, input_width, vote_label, vote_rows, cursor_column,
}

pub sum_votes-sum :
    (checks : Bool) (acc : ℕ) (cs : List ℕ)
    → acc + sum cs < 2 ^ 64
    → sum_votes checks acc cs ≡ some (acc + sum cs)
unfolding sum_votes
sum_votes-sum checks acc [] h = ap some (omega arith)
sum_votes-sum checks acc (c ∷ cs) h =
    rw (checked-lt checks (2 ^ 64) (acc + c) (omega arith))
      (sum_votes-sum checks (acc + c) cs (omega arith) ∙ ap some (omega arith))

-- The columns that a text takes.
abbrev pub columns : Text → ℕ
columns [] = 0
columns (c ∷ s) = char_width c + columns s

pub input_width-columns :
    (checks : Bool) (acc : ℕ) (s : Text)
    → acc + columns s < 2 ^ 16
    → input_width checks acc s ≡ some (acc + columns s)
unfolding input_width
input_width-columns checks acc [] h = ap some (omega arith)
input_width-columns checks acc (c ∷ s) h =
    rw (checked-lt checks (2 ^ 16) (acc + char_width c) (omega arith))
      (input_width-columns checks (acc + char_width c) s (omega arith) ∙ ap some (omega arith))

module _ {F : Type 0} where
  pub cursor_column-columns :
      (checks : Bool) (x : ℕ) (s : AppState F)
      → x + 3 + columns s.input < 2 ^ 16
      → cursor_column checks x s ≡ some (x + 3 + columns s.input)
  unfolding cursor_column
  cursor_column-columns checks x s h =
      rw
        (
          input_width-columns checks 0 s.input (omega arith),
          add.zero (columns s.input),
          checked-lt checks (2 ^ 16) (x + 1) (omega arith),
          checked-lt checks (2 ^ 16) (x + 1 + 2) (omega arith),
          checked-lt checks (2 ^ 16) (x + 1 + 2 + columns s.input) (omega arith),
        )
        (ap some (omega arith))

  -- The gauges of all options: two rows each, with the option's label, percentage and mark.
  abbrev pub gauges : ℕ → AppState F → ℕ → ℕ → List ℕ → List F → List (Row F)
  gauges y s total i [] ratios = []
  gauges y s total i (count ∷ counts) [] = []
  gauges y s total i (count ∷ counts) (ratio ∷ ratios) =
      record {
        y = y + row_h * i;
        label = vote_label s i count total;
        ratio = ratio;
        is_mine = holds s.my_vote i;
      }
      ∷ gauges y s total (suc i) counts ratios

  abbrev pub AllRatios : (F → Bool) → List F → Type 0
  AllRatios is_ratio [] = Unit
  AllRatios is_ratio (r ∷ rs) = (is_ratio r ≡ true) × AllRatios is_ratio rs

  drop-cons :
      (xs : List F) (i : ℕ) (r : F) (rs : List F)
      → drop i xs ≡ r ∷ rs
      → (get_elem? xs i ≡ some r) × (drop (suc i) xs ≡ rs)
  drop-cons [] zero r rs e = absurd cc
  drop-cons [] (suc i) r rs e = absurd cc
  drop-cons (x ∷ xs) zero r rs e = (cc, cc)
  drop-cons (x ∷ xs) (suc i) r rs e = drop-cons xs i r rs e

  pub vote_rows_lem :
      (checks : Bool) (is_ratio : F → Bool) (y h : ℕ) (s : AppState F) (total i : ℕ)
      (counts : List ℕ) (ratios : List F)
      → drop i s.vote_percentages ≡ ratios
      → length ratios ≡ length counts
      → AllRatios is_ratio ratios
      → y + h < 2 ^ 16
      → y + row_h * (i + length counts) < 2 ^ 16
      → vote_rows checks is_ratio y h s total i counts
        ≡ some (take (h / row_h - i) (gauges y s total i counts ratios))
  unfolding vote_rows
  vote_rows_lem checks is_ratio y h s total i [] ratios at same all area rows =
      ap some (sym (take-all (h / row_h - i) [] (omega arith)))
  vote_rows_lem checks is_ratio y h s total i (count ∷ counts) [] at same all area rows =
      absurd (omega arith)
  vote_rows_lem checks is_ratio y h s total i (count ∷ counts) (ratio ∷ ratios) at same all area
        rows =
      let (found, rest) = drop-cons s.vote_percentages i ratio ratios at in
      let small : i % 2 ^ 16 ≡ i = omega arith in
      let offset : checked checks (2 ^ 16) (i * row_h) ≡ some (i * row_h) =
        checked-lt checks (2 ^ 16) (i * row_h) (omega arith) in
      let top = checked-lt checks (2 ^ 16) (y + i * row_h) (omega arith) in
      let bottom = checked-lt checks (2 ^ 16) (y + i * row_h + row_h) (omega arith) in
      let limit = checked-lt checks (2 ^ 16) (y + h) area in
      let ih =
        vote_rows_lem checks is_ratio y h s total (suc i) counts ratios rest (omega arith) all.1
          area (omega arith) in
      elim (Bool-cases (ltb (y + h) (y + i * row_h + row_h))) [
        | inl past ↦
            let none_left : h / row_h - i ≡ 0 = ground arith in
            rw (vote_rows, small, offset, top, bottom, limit, past, none_left) refl
        | inr fits ↦
            let more : h / row_h - i ≡ suc (h / row_h - suc i) = ground arith in
            let row : y + i * row_h ≡ y + row_h * i = omega arith in
            rw (vote_rows, small, offset, top, bottom, limit, fits, found, all.0, ih, more, row)
              refl
      ]
