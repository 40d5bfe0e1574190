-- ===== src/Tui/Loop.antt =====
-- The event loop of src/tui.rs beside its network task: what the user types, what the server sends,
-- and what the loop sends. The order of the events is the order in which the two take the lock. A
-- round of the loop, the drawing of the frame and the event that it then waits for, is one event; a
-- message that comes in between changes neither the input nor the vote that the round acts on, and
-- stands behind the round.
pub mod Served
pub mod Wire
use rust_multichat_server.Base.{
  ℕ, ◌≡◌, Bool, true, false, Option, none, some, List, [], ◌∷◌, if◌then◌else◌,
}
use rust_multichat_server.Protocol.{ClientMsg, ServerMsg}
use rust_multichat_server.Tui.{AppState, KeyEvent, apply_msg, handle_key}
use rust_multichat_server.Tui.Frame.{Rect, Ratatui, render}

-- A round has the area in which its frame is drawn.
pub data UiEvent (F : Type 0) : Type 0 where
  network : ServerMsg F → UiEvent F
  no_key : (area : Rect) → UiEvent F  -- no event within 16 ms, or one that is no key
  io_failed : (area : Option Rect) → UiEvent F  -- the drawing, before the frame or not, the poll or the read
  key : (area : Rect) (k : KeyEvent) (now_ms : ℕ) (sent : Bool) → UiEvent F  -- whether `send` comes through

pub data LoopEnd : Type 0 where
  waiting quit failed unsent panicked : LoopEnd

module _ {F : Type 0} (checks : Bool) (ui : Ratatui F) where
  -- Whether `render` draws the frame, and does not panic.
  unfoldable pub draws : Rect → AppState F → Bool
  unfolding render
  draws area s = elim (render checks ui area s) [ none ↦ false | some f ↦ true ]

  -- The messages that are sent, the state, and how the loop ends.
  unfoldable pub event_loop : List (UiEvent F) → AppState F → List ClientMsg × AppState F × LoopEnd
  unfolding apply_msg draws handle_key
  event_loop [] s = ([], s, waiting)
  event_loop (network m ∷ es) s = event_loop es (apply_msg m s)
  event_loop (no_key area ∷ es) s =
      let rest = event_loop es s in if draws area s then rest else ([], s, panicked)
  event_loop (io_failed none ∷ es) s = ([], s, failed)
  event_loop (io_failed (some area) ∷ es) s = ([], s, if draws area s then failed else panicked)
  event_loop (key area k now_ms sent ∷ es) s =
      let pressed = handle_key k now_ms s in
      let next = pressed.2 in
      let rest = event_loop es next in
      if draws area s
      then (if pressed.0 then ([], next, quit) else elim pressed.1 [
        | none ↦ rest
        | some msg ↦ if sent then (msg ∷ rest.0, rest.1, rest.2) else ([], next, unsent)
      ])
      else ([], s, panicked)
