-- ===== src/Examples/Frames.antt =====
-- The terminal of the client, and a frame of it.
use rust_multichat_server.Base.{
  ℕ, ◌+◌, ◌-◌, ◌≡◌, refl, Bool, true, false, some, List, [], ◌∷◌, codes, leb,
}
use rust_multichat_server.Tui
use rust_multichat_server.Tui.{AppState, new, esc, quits, handle_key}
use rust_multichat_server.Tui.Loop.{UiEvent, network, no_key, key, draws, event_loop}
use rust_multichat_server.Protocol.{welcome}
use rust_multichat_server.Tui.Run
use rust_multichat_server.Tui.Run.{
  Operations, View, IsRestored, returned, aborted, and_then, set_up, after_loop, restore,
  loop_result, run, run-IsRestored, run-left_raw,
}
use rust_multichat_server.Tui.Frame
use rust_multichat_server.Tui.Frame.{Rect, Ratatui, Frame}
use rust_multichat_server.Examples.Data.{percent}

record Screen : Type 0 where
  raw : Bool
  alternate : Bool
  mouse : Bool
  cursor : Bool

-- A terminal on which every operation succeeds but, if so told, the alternate screen.
abbrev crossterm : Bool → Operations Screen
crossterm enters = record {
  enable_raw_mode = λ t. (true, record t { raw = true });
  enter_screen = λ t. (enters, record t { alternate = enters; mouse = enters });
  new_terminal = λ t. (true, t);
  draw_frames = λ t. record t { cursor = false };
  disable_raw_mode = λ t. (true, record t { raw = false });
  leave_screen = λ t. (true, record t { alternate = false; mouse = false });
  show_cursor = λ t. (true, record t { cursor = true });
}

abbrev view : View Screen
view = record {
  raw = λ t. t.raw;
  alternate = λ t. t.alternate;
  mouse = λ t. t.mouse;
  cursor = λ t. t.cursor;
}

crossterm-Documented : (enters : Bool) → Tui.Run.Documented (crossterm enters) view
crossterm-Documented enters = record {
  raw_off = λ t e. refl;
  left = λ t e. (refl, refl);
  leave_keeps_raw = λ t. refl;
  shown = λ t e. refl;
  show_keeps = λ t. (refl, refl, refl);
  raw_on = λ t e. refl;
  enter_keeps_raw = λ t. refl;
}

abbrev shell : Screen
shell = record { raw = false; alternate = false; mouse = false; cursor = true }

-- The splits of an area of nine rows or more.
-- The floats of the percentages are natural numbers from 0 to 100.
abbrev pub ratatui : Ratatui ℕ
ratatui = record {
  outer = λ a. (
    record a { height = a.height - 3 },
    record { x = a.x; y = a.y + (a.height - 3); width = a.width; height = 3 },
  );
  top = λ a. (
    record a { width = a.width - 22 },
    record { x = a.x + (a.width - 22); y = a.y; width = 22; height = a.height },
  );
  inner = λ a. record { x = a.x + 1; y = a.y + 1; width = a.width - 2; height = a.height - 2 };
  is_ratio = λ n. leb n 100;
}

abbrev pub area : Rect
area = record { x = 0; y = 0; width = 80; height = 24 }

-- The welcome comes, a frame is drawn, and the user presses Esc after another.
abbrev events : List (UiEvent ℕ)
events =
    network (welcome 2)
    ∷ no_key area
    ∷ key area (record { is_press = true; control = false; code = esc }) 0 true
    ∷ []

run-IsRestored_example :
    (t' : Screen) × ((run true ratatui (crossterm true) true percent events shell).ending
      ≡ returned true t')
    × IsRestored view t'
unfolding set_up and_then loop_result event_loop handle_key quits draws new
run-IsRestored_example =
    run-IsRestored true ratatui (crossterm true) view percent events shell true
      (crossterm-Documented true) refl refl (refl, refl, refl)

run-left_raw_example :
    (t' : Screen) × ((run true ratatui (crossterm false) true percent events shell).ending
      ≡ returned false t')
    × (t'.raw ≡ true)
run-left_raw_example =
    run-left_raw true ratatui (crossterm false) view percent events shell
      (crossterm-Documented false) refl refl

-- Without a welcome the first frame of a build that checks for overflow panics, and the terminal
-- stays in raw mode.
first_frame_aborts :
    (run true ratatui (crossterm true) true percent (no_key area ∷ []) shell).ending
    ≡ aborted (record { raw = true; alternate = true; mouse = true; cursor = false })
unfolding run set_up and_then after_loop event_loop draws
first_frame_aborts = refl

abbrev state : AppState ℕ
state = record {
  messages = codes "[bo] hi" ∷ [];
  vote_counts = 3 ∷ 0 ∷ 1 ∷ 0 ∷ [];
  vote_percentages = 75 ∷ 0 ∷ 25 ∷ 0 ∷ [];
  client_count = 2;
  input = codes "/vote 3";
  my_vote = some 0;
}
