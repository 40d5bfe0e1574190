-- ===== src/Tui/Input.antt =====
-- The commands that the user types.
use rust_multichat_server.Base.{
  ℕ, ◌-◌, ◌+◌, ◌≤◌, ◌<◌, ◌≡◌, refl, true, Option, none, some, ◌++◌, Option-cases, arith, ltb, leb,
  codes, if◌then◌else◌,
}
use rust_multichat_server.Protocol.{Text, n_options, ClientMsg, vote, unvote}
use rust_multichat_server.Strings.{max_u64, to_string, strip_prefix, is_whitespace}
use rust_multichat_server.Strings.Decimal.{to_string-AllChars, parse_unsigned-to_string}
use rust_multichat_server.Strings.Trim.{is_dark, trim-dark}
use rust_multichat_server.Tui.{AppState, parse_input, parse_vote, send_vote, parse_nick}

-- The server counts a client's vote by `ClientMsg::Vote` and `ClientMsg::Unvote`: what it holds after
-- the message.
abbrev pub vote_sent : Option ClientMsg → Option ℕ → Option ℕ
vote_sent (some (vote option)) v = some option
vote_sent (some unvote) v = none
vote_sent _ v = v

dark_digit : (d : ℕ) → d < 10 → is_dark (b'0' + d) ≡ true
unfolding is_whitespace
dark_digit d h = ground arith

parse_vote-to_string :
    (n : ℕ)
    → n ≤ max_u64
    → parse_vote (to_string n) ≡ (if ltb (n - 1) n_options then some (n - 1) else none)
unfolding parse_vote
parse_vote-to_string n h =
    rw
      (
        parse_vote,
        trim-dark (to_string n) (to_string-AllChars is_dark dark_digit n),
        parse_unsigned-to_string max_u64 n h,
      )
      refl

module _ {F : Type 0} where
  -- The command `/vote n` with a number from 1 to 4 in digits sends a vote for option `n - 1` and
  -- marks it as the user's own; with a larger number it sends nothing and changes nothing.
  pub vote_command :
      (n now_ms : ℕ) (s : AppState F)
      → 1 ≤ n
      → n ≤ max_u64
      → parse_input (codes "/vote " ++ to_string n) now_ms s ≡ (
          if leb n n_options
          then (some (vote (n - 1)), record s { my_vote = some (n - 1) })
          else (none, s))
  unfolding parse_input send_vote strip_prefix
  vote_command n now_ms s low high = rw (parse_vote-to_string n high) (ground arith)

  -- Whatever is typed, the vote that the client shows as the user's own changes exactly as the
  -- message that it sends, if any, changes the vote that the server holds for it.
  pub parse_input-my_vote :
      (input : Text) (now_ms : ℕ) (s : AppState F)
      → (parse_input input now_ms s).1.my_vote ≡ vote_sent (parse_input input now_ms s).0 s.my_vote
  unfolding parse_input parse_nick send_vote
  parse_input-my_vote input now_ms s = ground (
    arith,
    Option-cases (strip_prefix (codes "/nick ") input),
    Option-cases (strip_prefix (codes "/vote ") input),
  )
