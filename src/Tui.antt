-- ===== src/Tui.antt =====
-- src/tui.rs: the state of the terminal client, what the messages of the server and the keys of the
-- user do to it, and what the frame shows of it. Drawing itself, by `ratatui`, is not modelled.
pub mod Messages
pub mod Loop
pub mod Run
pub mod Frame
pub mod Render
pub mod Input
use rust_multichat_server.Base.{
  ℕ, zero, suc, ◌+◌, ◌-◌, ◌*◌, ◌%◌, ◌^◌, ◌≡◌, refl, Bool, true, false, not, ◌&&◌, ◌||◌, Option,
  none, some, List, [], ◌∷◌, ◌++◌, reverse, codes, if◌then◌else◌, ltb, leb, ◌==◌, holds, length,
  take, drop, get_or, sum,
}
use rust_multichat_server.Protocol.{
  Text, n_options, ClientMsg, set_nick, vote, unvote, ServerMsg, welcome, vote_snapshot, presence,
  error, Floats,
}
use rust_multichat_server.Protocol
use rust_multichat_server.Strings.{
  max_u64, text_eq, trim, strip_prefix, parse_unsigned, to_string, is_whitespace,
}

abbrev pub max_messages : ℕ
max_messages = 200

pub record AppState (F : Type 0) : Type 0 where
  pub messages : List Text
  pub vote_counts : List ℕ
  pub vote_percentages : List F
  pub client_count : ℕ
  pub input : Text
  pub my_vote : Option ℕ

-- The display of an optional nickname: the id where there is none.
unfoldable pub sender_name : Option Text → ℕ → Text
sender_name none from = to_string from
sender_name (some nick) from = nick

-- `/vote n`: the option, counted from 0.
unfoldable pub parse_vote : Text → Option ℕ
parse_vote rest = elim (parse_unsigned max_u64 (trim rest)) [
  | none ↦ none
  | some n ↦ if ltb (n - 1) n_options then some (n - 1) else none
]

pub data KeyCode : Type 0 where
  esc enter backspace : KeyCode
  char : ℕ → KeyCode
  other : KeyCode

pub record KeyEvent : Type 0 where
  pub is_press : Bool
  pub control : Bool
  pub code : KeyCode

-- Esc, or Ctrl and c.
unfoldable pub quits : KeyEvent → Bool
quits k = elim k.code [ esc ↦ true | char c ↦ k.control && c == b'c' | _ ↦ false ]

-- `String::pop`.
unfoldable pub pop_char : Text → Text
pop_char [] = []
pop_char (c ∷ []) = []
pop_char (c ∷ d ∷ s) = c ∷ pop_char (d ∷ s)

unfoldable pub parse_nick : Text → Option ClientMsg
parse_nick rest = elim (trim rest) [ [] ↦ none | c ∷ name ↦ some (set_nick (c ∷ name)) ]

module _ {F : Type 0} where
  unfoldable pub new : Floats F → AppState F
  new f32 = record {
    messages = [];
    vote_counts = 0 ∷ 0 ∷ 0 ∷ 0 ∷ [];
    vote_percentages = f32.zero_f32 ∷ f32.zero_f32 ∷ f32.zero_f32 ∷ f32.zero_f32 ∷ [];
    client_count = 0;
    input = [];
    my_vote = none;
  }

  unfoldable pub push_msg : Text → AppState F → AppState F
  push_msg msg s =
      let kept = if leb max_messages (length s.messages) then drop 1 s.messages else s.messages in
      record s { messages = kept ++ msg ∷ [] }

  -- One round of the network task.
  unfoldable pub apply_msg : ServerMsg F → AppState F → AppState F
  unfolding push_msg sender_name to_string
  apply_msg (welcome peer_count) s = record s { client_count = peer_count }
  apply_msg (Protocol.ServerMsg.chat from nick text sent_at client_ts) s =
      push_msg (codes "[" ++ (sender_name nick from ++ (codes "] " ++ text))) s
  apply_msg (vote_snapshot counts percentages) s = record s {
    vote_counts = counts;
    vote_percentages = percentages;
  }
  apply_msg (presence id true) s =
      push_msg (codes "▶ " ++ (to_string id ++ codes " 입장"))
        (record s { client_count = (s.client_count + 1) % 2 ^ 64 })
  apply_msg (presence id false) s =
      push_msg (codes "◀ " ++ (to_string id ++ codes " 퇴장"))
        (record s { client_count = s.client_count - 1 })
  apply_msg (error msg) s = push_msg (codes "⚠ " ++ msg) s

  unfoldable pub apply_all : List (ServerMsg F) → AppState F → AppState F
  unfolding apply_msg
  apply_all [] s = s
  apply_all (m ∷ ms) s = apply_all ms (apply_msg m s)

  unfoldable pub send_vote : Option ℕ → AppState F → Option ClientMsg × AppState F
  send_vote none s = (none, s)
  send_vote (some option) s = (some (vote option), record s { my_vote = some option })

  -- `now_ms` is the clock of a chat message.
  unfoldable pub parse_input : Text → ℕ → AppState F → Option ClientMsg × AppState F
  unfolding parse_nick send_vote
  parse_input input now_ms s = elim (strip_prefix (codes "/nick ") input) [
    | some rest ↦ (parse_nick rest, s)
    | none ↦ elim (strip_prefix (codes "/vote ") input) [
      | some rest ↦ send_vote (parse_vote rest) s
      | none ↦
          if text_eq input (codes "/unvote")
          then (some unvote, record s { my_vote = none })
          else (some (Protocol.ClientMsg.chat input now_ms), s)
    ]
  ]

  -- The Enter key: the input is cleared, and parsed unless it is blank.
  unfoldable pub submit : ℕ → AppState F → Option ClientMsg × AppState F
  unfolding parse_input
  submit now_ms s =
      let cleared : AppState F = record s { input = [] } in
      elim (trim s.input) [
        | [] ↦ (none, cleared)
        | c ∷ input ↦ parse_input (c ∷ input) now_ms cleared
      ]

  -- What a key does that neither is a release nor quits: the message to send, and the new state.
  unfoldable pub edit : KeyCode → ℕ → AppState F → Option ClientMsg × AppState F
  unfolding submit pop_char
  edit enter now_ms s = submit now_ms s
  edit backspace now_ms s = (none, record s { input = pop_char s.input })
  edit (char c) now_ms s = (none, record s { input = s.input ++ c ∷ [] })
  edit esc now_ms s = (none, s)
  edit other now_ms s = (none, s)

  -- One key in the event loop; the Boolean tells whether the loop is left.
  unfoldable pub handle_key : KeyEvent → ℕ → AppState F → Bool × Option ClientMsg × AppState F
  unfolding quits edit
  handle_key k now_ms s =
      if not k.is_press
      then (false, none, s)
      else if quits k
      then (true, none, s)
      else (false, (edit k.code now_ms s).0, (edit k.code now_ms s).1)

  -- The messages that `render_chat` shows in an area of the given height.
  unfoldable pub visible : ℕ → AppState F → List Text
  visible area_height s = reverse (take (area_height - 2) (reverse s.messages))

  -- The number in the title of the chat, `client_count - 1` in `usize`: below 1 it is a panic in a
  -- build that checks for overflow, and wraps in one that does not.
  unfoldable pub title_count : Bool → AppState F → Option ℕ
  title_count checks s =
      if s.client_count == 0
      then (if checks then none else some (2 ^ 64 - 1))
      else some (s.client_count - 1)
