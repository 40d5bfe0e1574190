-- ===== src/Bot/Echo.antt =====
-- src/bot/normal.rs and src/bot/spammer.rs: what the two bots send, and how they find the round-trip
-- time of a line that comes back. The clock is an argument.
pub mod Runs
use rust_multichat_server.Base.{
  ℕ, zero, suc, ◌+◌, ◌-◌, ◌≤◌, ◌<◌, ◌≡◌, refl, ap, ◌∙◌, true, false, Option, none, some, List, [],
  ◌∷◌, ◌++◌, codes, if◌then◌else◌, leb, get_elem?, arith,
}
use rust_multichat_server.Protocol.{Text, ClientMsg, chat}
use rust_multichat_server.Strings.{
  max_u64, to_string, after_first, is_digit, parse_unsigned, strip_prefix,
}
use rust_multichat_server.Strings.Decimal.{AllChars, to_string-AllChars, parse_unsigned-to_string}
use rust_multichat_server.Bot.Rtt.{RttCounter, record_rtt}

unfoldable pub target : ℕ → Text
target id = codes "bot_" ++ (to_string id ++ codes "_msg_")

-- The messages from number `seq` on, where message `i` is sent at `now_ms i`, and their times.
unfoldable pub send_all : ℕ → (ℕ → ℕ) → ℕ → ℕ → List ClientMsg × List ℕ
unfolding target
send_all id now_ms seq zero = ([], [])
send_all id now_ms seq (suc left) =
    let rest = send_all id now_ms (suc seq) left in
    (chat (target id ++ to_string seq) (now_ms seq) ∷ rest.0, now_ms seq ∷ rest.1)

-- `take_while(|c| c.is_ascii_digit())`.
unfoldable pub leading_digits : Text → Text
leading_digits [] = []
leading_digits (c ∷ s) = if is_digit c then c ∷ leading_digits s else []

unfoldable pub extract_seq : Text → Text → Option ℕ
unfolding leading_digits
extract_seq line target = elim (after_first target line) [
  | none ↦ none
  | some after ↦ parse_unsigned max_u64 (leading_digits after)
]

unfoldable pub record_since : ℕ → Option ℕ → RttCounter → RttCounter
record_since recv_ts none c = c
record_since recv_ts (some send_ts) c =
    if leb send_ts recv_ts then record_rtt (recv_ts - send_ts) c else c

unfoldable pub sent_at : List ℕ → Option ℕ → Option ℕ
sent_at send_timestamps none = none
sent_at send_timestamps (some seq) = get_elem? send_timestamps seq

-- The callback `on_match`.
unfoldable pub on_match : Text → List ℕ → ℕ → Text → RttCounter → RttCounter
unfolding record_since sent_at extract_seq
on_match target send_timestamps recv_ts line c =
    record_since recv_ts (sent_at send_timestamps (extract_seq line target)) c

strip_prefix-append : (p s : Text) → strip_prefix p (p ++ s) ≡ some s
unfolding strip_prefix
strip_prefix-append [] s = ground arith
strip_prefix-append (c ∷ p) s = ground (arith, strip_prefix-append p s)

leading_digits-append :
    (p s : Text) (c : ℕ)
    → AllChars is_digit p
    → is_digit c ≡ false
    → leading_digits (p ++ c ∷ s) ≡ p
unfolding leading_digits
leading_digits-append [] s c d n = rw n refl
leading_digits-append (x ∷ p) s c d n = ground (arith, leading_digits-append p s c d.1 n)

send_all-times :
    (id : ℕ) (now_ms : ℕ → ℕ) (first left i : ℕ)
    → i < left
    → get_elem? (send_all id now_ms first left).1 i ≡ some (now_ms (first + i))
unfolding send_all
send_all-times id now_ms first zero i h = absurd (omega arith)
send_all-times id now_ms first (suc left) zero h = ap (λ n. some (now_ms n)) (omega arith)
send_all-times id now_ms first (suc left) (suc i) h =
    send_all-times id now_ms (suc first) left i (omega arith)
    ∙ ap (λ n. some (now_ms n)) (omega arith)

digit_digit : (d : ℕ) → d < 10 → is_digit (b'0' + d) ≡ true
unfolding is_digit
digit_digit d h = ground arith

extract_seq-to_string :
    (mark line after : Text) (seq stop : ℕ)
    → seq ≤ max_u64
    → is_digit stop ≡ false
    → after_first mark line ≡ some (to_string seq ++ stop ∷ after)
    → extract_seq line mark ≡ some seq
unfolding extract_seq
extract_seq-to_string mark line after seq stop small ends found =
    rw
      (
        extract_seq,
        found,
        leading_digits-append (to_string seq) after stop
            (to_string-AllChars is_digit digit_digit seq) ends,
      )
      (parse_unsigned-to_string max_u64 seq small)

-- For a line in which the first mark of the bot is followed by the number of one of its messages
-- and then by no digit, the callback records the time since that very message was sent, unless the
-- clock has gone back.
pub on_match-send_all :
    (id msg_count : ℕ) (now_ms : ℕ → ℕ) (recv_ts : ℕ) (line after : Text) (seq stop : ℕ)
    (c : RttCounter)
    → seq < msg_count
    → seq ≤ max_u64
    → is_digit stop ≡ false
    → after_first (target id) line ≡ some (to_string seq ++ stop ∷ after)
    → on_match (target id) (send_all id now_ms 0 msg_count).1 recv_ts line c
      ≡ (if leb (now_ms seq) recv_ts then record_rtt (recv_ts - now_ms seq) c else c)
unfolding on_match
on_match-send_all id msg_count now_ms recv_ts line after seq stop c sent small ends found =
    ap (λ o. record_since recv_ts (sent_at (send_all id now_ms 0 msg_count).1 o) c)
      (extract_seq-to_string (target id) line after seq stop small ends found)
    ∙ ap (λ o. record_since recv_ts o c)
        (send_all-times id now_ms 0 msg_count seq sent ∙ ap (λ n. some (now_ms n)) (omega arith))
