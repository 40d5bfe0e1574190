-- ===== src/Tui/Frame.antt =====
-- `render` of src/tui.rs: the areas of the frame, and what is drawn in them. The splits of `Layout`,
-- the inner area of a block with borders and the test of `Gauge::ratio` are parameters.
use rust_multichat_server.Base.{ℕ, ◌+◌, ◌≡◌, Bool, Option, some, List, ◌>>=◌}
use rust_multichat_server.Protocol.{Text}
use rust_multichat_server.Tui.{AppState}
use rust_multichat_server.Tui.Render.{Row, render_chat, render_vote, render_input}

pub record Rect : Type 0 where
  pub x : ℕ
  pub y : ℕ
  pub width : ℕ
  pub height : ℕ

pub record Ratatui (F : Type 0) : Type 0 where
  pub outer : Rect → Rect × Rect  -- vertical: Min(3), Length(3)
  pub top : Rect → Rect × Rect  -- horizontal: Min(20), Length(22)
  pub inner : Rect → Rect  -- of a block with all borders
  pub is_ratio : F → Bool  -- from 0 to 1; `Gauge::ratio` panics otherwise

-- What the frame shows: the chat, the gauges, and the input line with the cursor.
pub record Frame (F : Type 0) : Type 0 where
  pub chat : Text × List Text
  pub votes : List (Row F)
  pub input : Text × ℕ × ℕ

-- `area` is `f.area()`; `none` is a panic.
unfoldable pub render : {F : Type 0} → Bool → Ratatui F → Rect → AppState F → Option (Frame F)
unfolding render_chat render_vote render_input
render checks l area s = do
  let outer = l.outer area
  let top = l.top outer.0
  let panel = l.inner top.1
  chat ← render_chat checks top.0.height s
  votes ← render_vote checks l.is_ratio panel.y panel.height s
  input ← render_input checks outer.1.x outer.1.y s
  some (record { chat = chat; votes = votes; input = input })

-- How `Layout` and `Block` are documented for an area of eight rows or more within the range of
-- `u16`: the splits fill the area, a length is kept, and a border takes one row on each side.
pub record Documented {F : Type 0} (l : Ratatui F) (area : Rect) : Type 0 where
  pub upper : (l.outer area).0.y ≡ area.y
  pub upper_height : (l.outer area).0.height + 3 ≡ area.height
  pub input_height : (l.outer area).1.height ≡ 3
  pub input_y : (l.outer area).1.y + 3 ≡ area.y + area.height
  pub chat_height : (l.top (l.outer area).0).0.height ≡ (l.outer area).0.height
  pub votes_y : (l.top (l.outer area).0).1.y ≡ (l.outer area).0.y
  pub votes_height : (l.top (l.outer area).0).1.height ≡ (l.outer area).0.height
  pub panel_y : (l.inner (l.top (l.outer area).0).1).y ≡ (l.top (l.outer area).0).1.y + 1
  pub panel_height :
      (l.inner (l.top (l.outer area).0).1).height + 2 ≡ (l.top (l.outer area).0).1.height
