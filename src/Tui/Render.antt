-- ===== src/Tui/Render.antt =====
-- The parts of the frame that src/tui.rs draws. `none` is a panic; `checks` tells whether the build
-- checks for overflow. `is_ratio` is the test that `Gauge::ratio` of `ratatui` makes of its argument,
-- which is to be from 0 to 1.
use rust_multichat_server.Base.{
  ℕ, suc, ◌+◌, ◌*◌, ◌%◌, ◌^◌, Bool, Option, none, some, List, [], ◌∷◌, ◌++◌, codes, if◌then◌else◌,
  ltb, holds, get_elem?, checked, ◌>>=◌,
}
use rust_multichat_server.Protocol.{Text}
use rust_multichat_server.Strings.{to_string}
use rust_multichat_server.Tui.{AppState, visible, title_count}
pub mod Shown

abbrev pub row_h : ℕ
row_h = 2

pub record Row (F : Type 0) : Type 0 where
  pub y : ℕ
  pub label : Text
  pub ratio : F
  pub is_mine : Bool

-- `iter().sum::<u64>()` of the counts.
unfoldable pub sum_votes : Bool → ℕ → List ℕ → Option ℕ
unfolding checked
sum_votes checks acc [] = some acc
sum_votes checks acc (c ∷ cs) = do
  acc' ← checked checks (2 ^ 64) (acc + c)
  sum_votes checks acc' cs

abbrev pub char_width : ℕ → ℕ
char_width c = if ltb c 128 then 1 else 2

-- `iter().sum::<u16>()` of the widths of the characters.
unfoldable pub input_width : Bool → ℕ → Text → Option ℕ
unfolding checked
input_width checks acc [] = some acc
input_width checks acc (c ∷ s) = do
  acc' ← checked checks (2 ^ 16) (acc + char_width c)
  input_width checks acc' s

module _ {F : Type 0} where
  -- The label of the gauge of option `i`.
  unfoldable pub vote_label : AppState F → ℕ → ℕ → ℕ → Text
  unfolding to_string
  vote_label s i count total =
      let mark = if holds s.my_vote i then codes "]▶ " else codes "]  " in
      codes "["
      ++ (to_string (i + 1) ++ (mark ++ (to_string count ++ (codes "/" ++ to_string total))))

  -- The gauges from option `i` on, of the counts that are left. An index out of the array of
  -- percentages panics too.
  unfoldable pub vote_rows :
      Bool → (F → Bool) → ℕ → ℕ → AppState F → ℕ → ℕ → List ℕ → Option (List (Row F))
  unfolding vote_label checked
  vote_rows checks is_ratio inner_y inner_height s total i [] = some []
  vote_rows checks is_ratio inner_y inner_height s total i (count ∷ counts) = do
    let rest = vote_rows checks is_ratio inner_y inner_height s total (suc i) counts
    offset ← checked checks (2 ^ 16) ((i % 2 ^ 16) * row_h)
    y ← checked checks (2 ^ 16) (inner_y + offset)
    bottom ← checked checks (2 ^ 16) (y + row_h)
    limit ← checked checks (2 ^ 16) (inner_y + inner_height)
    if ltb limit bottom then some [] else do
      ratio ← get_elem? s.vote_percentages i
      let row : Row F = record {
        y = y;
        label = vote_label s i count total;
        ratio = ratio;
        is_mine = holds s.my_vote i;
      }
      if is_ratio ratio then (rest >>= λ rows. some (row ∷ rows)) else none

  -- In an inner area that begins at row `inner_y`.
  unfoldable pub render_vote : Bool → (F → Bool) → ℕ → ℕ → AppState F → Option (List (Row F))
  unfolding sum_votes vote_rows
  render_vote checks is_ratio inner_y inner_height s = do
    total ← sum_votes checks 0 s.vote_counts
    vote_rows checks is_ratio inner_y inner_height s total 0 s.vote_counts

  -- The title of the chat, and the messages in its list.
  unfoldable pub render_chat : Bool → ℕ → AppState F → Option (Text × List Text)
  unfolding title_count visible to_string
  render_chat checks area_height s = do
    n ← title_count checks s
    some (codes " Chat  참여자: " ++ (to_string n ++ codes " "), visible area_height s)

  -- The column of the cursor, `area.x + 1 + 2 + input_width`.
  unfoldable pub cursor_column : Bool → ℕ → AppState F → Option ℕ
  unfolding input_width checked
  cursor_column checks x s = do
    width ← input_width checks 0 s.input
    x1 ← checked checks (2 ^ 16) (x + 1)
    x2 ← checked checks (2 ^ 16) (x1 + 2)
    checked checks (2 ^ 16) (x2 + width)

  -- The line of the input, and the column and the row of the cursor.
  unfoldable pub render_input : Bool → ℕ → ℕ → AppState F → Option (Text × ℕ × ℕ)
  unfolding cursor_column checked
  render_input checks x y s = do
    column ← cursor_column checks x s
    row ← checked checks (2 ^ 16) (y + 1)
    some (codes "> " ++ (s.input ++ codes " /nick <이름>  /vote 1~4  /unvote  Esc:종료"), column, row)
