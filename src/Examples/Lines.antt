-- ===== src/Examples/Lines.antt =====
-- Lines that are written and read back: messages, reports, and the allocation of a drawn ratio.
use rust_multichat_server.Base.{ℕ, ◌≡◌, refl, true, some, List, [], ◌∷◌, codes, map, arith}
use rust_multichat_server.Protocol.{Text, ClientMsg, vote, set_nick}
use rust_multichat_server.Strings.{to_string}
use rust_multichat_server.Strings.Chars.{test_all-AllChars}
use rust_multichat_server.Strings.Lines.{is_inline}
use rust_multichat_server.Client.Line.{Bytes, Fill, chunk, line, pop_cr}
use rust_multichat_server.Client.Line.Chunks.{bytes}
use rust_multichat_server.Client.Line.Framing.{
  send_msg, send_each, read_lines, AllFit, messages_read_back,
}
use rust_multichat_server.Bot.Scenario.{ScenarioReport, rtt_str, display}
use rust_multichat_server.Bot.Suite.ReportParse.{parse_report_display, parse_report_display-display}
use rust_multichat_server.Bot.Suite.Strategies.{Ratios, IsDrawn, arb_ratio_spec}
use rust_multichat_server.Bot.Suite.AllocateProps.{
  prop_allocation_sum_equals_total, prop_proportional_allocation, prop_remainder_allocation_order,
}
use rust_multichat_server.Bot.Suite.AllocateProps.Pass.{allocate_props_pass}
use rust_multichat_server.Examples.Data.{encode, encode-read, Fits-some, read_numbers}

abbrev said : List ClientMsg
said = vote 2 ∷ set_nick (codes "bo") ∷ []

abbrev said_bytes : Bytes
said_bytes = 1 ∷ 2 ∷ b'\n' ∷ 2 ∷ b'b' ∷ b'o' ∷ b'\n' ∷ []

-- The stream, cut in the middle of the second line, with the start of a third behind.
abbrev stream : List Fill
stream = chunk (1 ∷ 2 ∷ b'\n' ∷ 2 ∷ []) ∷ chunk (b'b' ∷ b'o' ∷ []) ∷ chunk (b'\n' ∷ 0 ∷ []) ∷ []

fit : AllFit 100 encode said
unfolding pop_cr
fit = (
  λ json e. Fits-some 100 (1 ∷ 2 ∷ []) json (refl, refl, omega arith) e,
  (λ json e. Fits-some 100 (2 ∷ b'b' ∷ b'o' ∷ []) json (refl, refl, omega arith) e, tt),
)

messages_read_back_example :
    (lines : List Bytes) × ((read_lines 100 2 stream).0 ≡ map line lines)
    × (map read_numbers lines ≡ map some said)
    × (bytes (read_lines 100 2 stream).1 ≡ 0 ∷ [])
unfolding send_each send_msg
messages_read_back_example =
    messages_read_back encode read_numbers 100 said said_bytes (0 ∷ []) stream encode-read fit refl
      tt refl

-- Elapsed times in hundredths of a second, of which the seconds are printed.
abbrev secs : ℕ → Text
secs n = codes "12.35"

abbrev report : ScenarioReport ℕ
report = record {
  mode = codes "fickle";
  total_bots = 10;
  success_count = 9;
  failure_count = 1;
  elapsed_secs = 1235;
  avg_rtt_ms = some 42;
  vote_integrity = some (record {
    passed = true;
    expected = 3 ∷ 2 ∷ 3 ∷ 1 ∷ [];
    actual = 3 ∷ 2 ∷ 3 ∷ 1 ∷ [];
    fickle_count = 9;
  });
}

parse_report_display-display_example :
    parse_report_display (display secs report)
    ≡ some (codes "fickle", 10, 9, 1, codes "12.35s", codes "42ms")
unfolding rtt_str to_string
parse_report_display-display_example =
    parse_report_display-display secs report (test_all-AllChars is_inline (codes "fickle") refl)
      (test_all-AllChars is_inline (codes "12.35") refl) (omega arith) (omega arith) (omega arith)

abbrev drawn : Ratios
drawn = record { r1 = 40; r2 = 20; r3 = 20; r4 = 10; r5 = 10; count = 3 }

drawn-IsDrawn : IsDrawn drawn
drawn-IsDrawn = record {
  one = omega arith;
  two = omega arith;
  three = omega arith;
  four = omega arith;
  five = omega arith;
  some_entries = omega arith;
}

allocate_props_pass_example :
    (prop_allocation_sum_equals_total true 501 (arb_ratio_spec drawn) ≡ true)
    × (prop_proportional_allocation true 501 (arb_ratio_spec drawn) ≡ true)
    × (prop_remainder_allocation_order true 501 (arb_ratio_spec drawn) ≡ true)
allocate_props_pass_example = allocate_props_pass true 501 drawn (omega arith) drawn-IsDrawn
