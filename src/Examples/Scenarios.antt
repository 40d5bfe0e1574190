-- ===== src/Examples/Scenarios.antt =====
-- The helpers that the bots share, and a mixed scenario.
use rust_multichat_server.Base.{
  false, ◌++◌, ℕ, ◌+◌, ◌≡◌, refl, min, max, some, List, [], ◌∷◌, codes, arith,
}
use rust_multichat_server.Strings.{after_first, is_digit, to_string, contains}
use rust_multichat_server.Bot.Rtt
use rust_multichat_server.Bot.Echo.{target}
use rust_multichat_server.Protocol.{Text}
use rust_multichat_server.Bot.Rtt.{record_rtt}
use rust_multichat_server.Bot.Recv.{
  Recv, line, ended, recv_until_count, matches, recv_until_count_lem,
}
use rust_multichat_server.Bot.Connect.{Attempt, refused}
use rust_multichat_server.Bot.Scenario.{Measured}

-- Two lines that match, one that does not, and the timeout.
abbrev stream : List Recv
stream = line (codes "bot_1_msg_0") ∷ line (codes "hello") ∷ line (codes "bot_1_msg_1") ∷ ended ∷ []

recv_until_count_example :
    (recv_until_count (λ l n. n + 1) (contains (codes "bot_1_msg_")) 5 stream 0).0
    ≡ min (matches (λ l n. n + 1) (contains (codes "bot_1_msg_")) stream) (max 1 5)
recv_until_count_example =
    recv_until_count_lem (λ l n. n + 1) (contains (codes "bot_1_msg_")) 5 stream 0 (omega arith)

-- A server that refuses every attempt.
abbrev refuses : ℕ → Attempt ℕ
refuses attempt = refused attempt

abbrev measured : Measured ℕ
measured = record { elapsed_secs = 3; rtt_counter = Rtt.new; fickle_results = []; order = λ es. es }

comma : is_digit b',' ≡ false
unfolding is_digit
comma = refl

-- The line of the second of two messages comes back.
abbrev echoed : Text
echoed = codes "text:bot_1_msg_1,"

found : after_first (target 1) echoed ≡ some (to_string 1 ++ b',' ∷ [])
unfolding after_first target to_string
found = refl
