-- ===== src/Examples/Terminals.antt =====
-- The terminal client.
use rust_multichat_server.Base.{length, ℕ, ◌≡◌, refl, some, [], ◌∷◌}
use rust_multichat_server.Tui.{AppState, max_messages}
use rust_multichat_server.Base.{◌+◌, ◌%◌, ◌^◌, ◌≢◌, arith, List, true, false, indicator, holds}
use rust_multichat_server.Protocol.{vote, vote_snapshot, welcome}
use rust_multichat_server.Strings.{trim, is_whitespace, strip_prefix, parse_unsigned}
use rust_multichat_server.Tui.{KeyEvent, KeyCode, char, enter, quits, edit, submit, handle_key}
use rust_multichat_server.Tui
use rust_multichat_server.Tui.Loop.{
  UiEvent, network, no_key, key, waiting, unsent, draws, event_loop,
}
use rust_multichat_server.Tui.Loop.Wire.{typed_vote_counted}
use rust_multichat_server.Client.Line.{Fill, chunk, pop_cr}
use rust_multichat_server.Client.Line.Framing.{AllFit, send_msg, send_each}
use rust_multichat_server.Client.Session.Wire.{events_of}
use rust_multichat_server.Protocol.{max_line_len}
use rust_multichat_server.Client.Session.Votes.{served}
use rust_multichat_server.Examples.Frames.{ratatui, area}
use rust_multichat_server.Examples.Data.{
  encode, encode-read, Fits-some, percent, numbers, clock, hub,
}

abbrev state : AppState ℕ
state = record {
  messages = [];
  vote_counts = 0 ∷ 0 ∷ 0 ∷ 0 ∷ [];
  vote_percentages = 0 ∷ 0 ∷ 0 ∷ 0 ∷ [];
  client_count = 2;
  input = [];
  my_vote = some 0;
}

abbrev press : KeyCode → UiEvent ℕ
press c = key area (record { is_press = true; control = false; code = c }) 0 true

-- After the welcome the user types `/vote 3`, while a snapshot comes from the server, and presses Enter.
abbrev typed : List (UiEvent ℕ)
typed =
    network (welcome 2)
    ∷ press (char b'/')
    ∷ press (char b'v')
    ∷ press (char b'o')
    ∷ press (char b't')
    ∷ press (char b'e')
    ∷ network (vote_snapshot (1 ∷ 0 ∷ 0 ∷ 0 ∷ []) (100 ∷ 0 ∷ 0 ∷ 0 ∷ []))
    ∷ press (char b' ')
    ∷ press (char b'3')
    ∷ no_key area
    ∷ press enter
    ∷ []

typed_end :
    ((event_loop true ratatui typed (Tui.new percent)).0 ≡ vote 2 ∷ [])
    × ((event_loop true ratatui typed (Tui.new percent)).2 ≡ waiting)
unfolding event_loop draws handle_key quits edit submit Tui.parse_input Tui.apply_msg Tui.new trim
    is_whitespace strip_prefix Tui.parse_vote parse_unsigned Tui.send_vote
typed_end = (refl, refl)

typed-sent : (event_loop true ratatui typed (Tui.new percent)).2 ≢ unsent
typed-sent e = cc (typed_end.1, e)

-- The line of the vote in two chunks, with the first byte of another behind it.
abbrev wire : List Fill
wire = chunk (1 ∷ []) ∷ chunk (2 ∷ b'\n' ∷ 0 ∷ []) ∷ []

typed_vote_counted_example :
    (served numbers 9
        (events_of clock (length (event_loop true ratatui typed (Tui.new percent)).0) wire)
        hub).1.board.counts
      2
    ≡ (hub.board.counts 2
        + indicator (holds (event_loop true ratatui typed (Tui.new percent)).1.my_vote 2))
      % 2 ^ 64
unfolding send_each send_msg
typed_vote_counted_example =
    typed_vote_counted true ratatui percent numbers encode clock typed (1 ∷ 2 ∷ b'\n' ∷ []) (0 ∷ [])
      wire 9 hub 2 encode-read fit written tt refl (λ i h. omega arith) typed-sent (omega arith)
  where
    fit : AllFit max_line_len encode (event_loop true ratatui typed (Tui.new percent)).0
    fit =
        unfold pop_cr in
        rw (typed_end.0)
          ((λ json e. Fits-some max_line_len (1 ∷ 2 ∷ []) json (refl, refl, omega arith) e), tt)

    written :
        send_each encode (event_loop true ratatui typed (Tui.new percent)).0
        ≡ some (1 ∷ 2 ∷ b'\n' ∷ [])
    written = rw (typed_end.0) refl
