-- ===== src/Bot/Suite/ReportProps/Pass.antt =====
-- The property tests of the report in src/bot/mod.rs hold for every input.
use rust_multichat_server.Base.{
  checked-lt, ℕ, zero, suc, ◌+◌, ◌-◌, ◌^◌, ◌≤◌, ◌<◌, ◌≡◌, refl, Bool, true, false, Option, none,
  some, List, [], ◌++◌, ==_refl, codes, arith, get_or,
}
use rust_multichat_server.Protocol.{Text}
use rust_multichat_server.Strings.{contains, to_string, after_first, strip_prefix, max_u64}
use rust_multichat_server.Strings.Decimal.{AllChars}
use rust_multichat_server.Strings.Parts.{is_not}
use rust_multichat_server.Strings.Chars.{AllChars-append, test_all, test_all-AllChars, text_eq_refl}
use rust_multichat_server.Strings.Lines.{lines, is_inline}
use rust_multichat_server.Strings.Contains.{contains-join, contains_not}
use rust_multichat_server.Bot.Tally.{VoteIntegrityResult}
use rust_multichat_server.Bot.Scenario.{
  ScenarioReport, display, rtt_str, vote_integrity_str, debug_numbers,
}
use rust_multichat_server.Bot.Suite.Report.{starts_with, integrity_report}
use rust_multichat_server.Bot.Suite.ReportParse.{
  parse_report_display-display, lines-display, report_lines, debug_numbers-AllChars, number,
}
use rust_multichat_server.Bot.Suite.Strategies.{Figures, IsReported, arb_mode, arb_scenario_report}
use rust_multichat_server.Bot.Suite.ReportProps.{
  prop_scenario_report_success_failure_sum, expected_rtt, prop_scenario_report_display_roundtrip,
  holds_all, prop_scenario_report_display_field_completeness, find_line,
  prop_vote_integrity_display_roundtrip, other_mode, prop_vote_integrity_na_display_roundtrip,
}

expected_rtt-rtt_str : (o : Option ℕ) → expected_rtt o ≡ rtt_str o
unfolding expected_rtt rtt_str
expected_rtt-rtt_str none = refl
expected_rtt-rtt_str (some ms) = refl

round_trip :
    {E : Type 0} (fixed_2 : E → Text) (r : ScenarioReport E)
    → AllChars is_inline r.mode
    → AllChars is_inline (fixed_2 r.elapsed_secs)
    → r.total_bots ≤ max_u64
    → r.success_count ≤ max_u64
    → r.failure_count ≤ max_u64
    → prop_scenario_report_display_roundtrip fixed_2 r ≡ true
unfolding prop_scenario_report_display_roundtrip
round_trip fixed_2 r m e t s f =
    rw
      (
        prop_scenario_report_display_roundtrip,
        parse_report_display-display fixed_2 r m e t s f,
        expected_rtt-rtt_str r.avg_rtt_ms,
        text_eq_refl r.mode,
        text_eq_refl (fixed_2 r.elapsed_secs ++ codes "s"),
        text_eq_refl (rtt_str r.avg_rtt_ms),
        ==_refl r.total_bots,
        ==_refl r.success_count,
        ==_refl r.failure_count,
      )
      refl

complete :
    {E : Type 0} (fixed_2 : E → Text) (r : ScenarioReport E)
    → prop_scenario_report_display_field_completeness fixed_2 r ≡ true
unfolding prop_scenario_report_display_field_completeness holds_all display
complete fixed_2 r =
    rw
      (
        holds_all,
        found (codes "mode:") 1 (omega arith) refl,
        found (codes "total_bots:") 2 (omega arith) refl,
        found (codes "success:") 3 (omega arith) refl,
        found (codes "failure:") 4 (omega arith) refl,
        found (codes "elapsed:") 5 (omega arith) refl,
        found (codes "avg_rtt:") 6 (omega arith) refl,
        found (codes "vote_integrity:") 7 (omega arith) refl,
      )
      refl
  where
    found :
        (key : Text) (i : ℕ)
        → i < 8
        → contains key (get_or (report_lines fixed_2 r) i []) ≡ true
        → contains key (display fixed_2 r) ≡ true
    found key i l h = contains-join key b'\n' (report_lines fixed_2 r) i l h

-- A verdict of PASS is followed by no letter F.
no_f_after_pass :
    (expected actual : List ℕ) (n : ℕ)
    → contains (codes "FAIL") (
        codes "vote_integrity: "
        ++ vote_integrity_str (
            some
              (record { passed = true; expected = expected; actual = actual; fickle_count = n })))
      ≡ false
unfolding vote_integrity_str
no_f_after_pass expected actual n = contains_not b'F' (codes "AIL") _ (
    after (codes "vote_integrity: PASS (expected=[") _ refl (
      AllChars-append (is_not b'F') (debug_numbers expected) _
        (debug_numbers-AllChars (is_not b'F') digit refl expected)
        (after (codes ", actual=[") _ refl (
          AllChars-append (is_not b'F') (debug_numbers actual) _
            (debug_numbers-AllChars (is_not b'F') digit refl actual)
            (after (codes ", fickle_bots=") _ refl (
              AllChars-append (is_not b'F') (to_string n) _ (number (is_not b'F') digit refl n)
                (test_all-AllChars (is_not b'F') (codes ")") refl)))))))
  where
    digit : (d : ℕ) → d < 10 → is_not b'F' (b'0' + d) ≡ true
    digit d h = ground arith

    after :
        (s t : Text)
        → test_all (is_not b'F') s ≡ true
        → AllChars (is_not b'F') t
        → AllChars (is_not b'F') (s ++ t)
    after s t h a = AllChars-append (is_not b'F') s t (test_all-AllChars (is_not b'F') s h) a

integrity_line :
    {E : Type 0} (fixed_2 : E → Text) (elapsed : E) (mode : Text)
    (result : Option VoteIntegrityResult)
    → AllChars is_inline mode
    → AllChars is_inline (fixed_2 elapsed)
    → find_line
        (codes "vote_integrity:")
        (lines (display fixed_2 (integrity_report fixed_2 elapsed mode result)))
      ≡ some (codes "vote_integrity: " ++ vote_integrity_str result)
unfolding find_line integrity_report starts_with strip_prefix
integrity_line fixed_2 elapsed mode result m e =
    rw (lines-display fixed_2 (integrity_report fixed_2 elapsed mode result) m e) refl

vote_round_trip :
    {E : Type 0} (fixed_2 : E → Text) (elapsed : E) (passed : Bool) (expected actual : List ℕ)
    (n : ℕ)
    → AllChars is_inline (fixed_2 elapsed)
    → prop_vote_integrity_display_roundtrip fixed_2 elapsed passed expected actual n ≡ true
unfolding prop_vote_integrity_display_roundtrip
vote_round_trip fixed_2 elapsed true expected actual n e =
    rw
      (
        prop_vote_integrity_display_roundtrip,
        integrity_line fixed_2 elapsed (codes "fickle") _
            (test_all-AllChars is_inline (codes "fickle") refl) e,
        no_f_after_pass expected actual n,
      )
      (unfold contains after_first strip_prefix vote_integrity_str in refl)
vote_round_trip fixed_2 elapsed false expected actual n e =
    rw
      (
        prop_vote_integrity_display_roundtrip,
        integrity_line fixed_2 elapsed (codes "fickle") _
            (test_all-AllChars is_inline (codes "fickle") refl) e,
      )
      (unfold contains after_first strip_prefix vote_integrity_str in refl)

other_mode-inline : (k : ℕ) → AllChars is_inline (other_mode k)
unfolding other_mode
other_mode-inline zero = test_all-AllChars is_inline (codes "normal") refl
other_mode-inline (suc zero) = test_all-AllChars is_inline (codes "ghost") refl
other_mode-inline (suc (suc n)) = test_all-AllChars is_inline (codes "quitter") refl

na_round_trip :
    {E : Type 0} (fixed_2 : E → Text) (elapsed : E) (k : ℕ)
    → AllChars is_inline (fixed_2 elapsed)
    → prop_vote_integrity_na_display_roundtrip fixed_2 elapsed (other_mode k) ≡ true
unfolding prop_vote_integrity_na_display_roundtrip
na_round_trip fixed_2 elapsed k e =
    rw
      (
        prop_vote_integrity_na_display_roundtrip,
        integrity_line fixed_2 elapsed (other_mode k) none (other_mode-inline k) e,
      )
      (unfold contains after_first strip_prefix vote_integrity_str in refl)

arb_mode-inline : (k : ℕ) → AllChars is_inline (arb_mode k)
unfolding arb_mode
arb_mode-inline zero = test_all-AllChars is_inline (codes "normal") refl
arb_mode-inline (suc zero) = test_all-AllChars is_inline (codes "fickle") refl
arb_mode-inline (suc (suc zero)) = test_all-AllChars is_inline (codes "spammer") refl
arb_mode-inline (suc (suc (suc zero))) = test_all-AllChars is_inline (codes "ghost") refl
arb_mode-inline (suc (suc (suc (suc zero)))) = test_all-AllChars is_inline (codes "quitter") refl
arb_mode-inline (suc (suc (suc (suc (suc n))))) = test_all-AllChars is_inline (codes "mixed") refl

sums :
    {E : Type 0} (checks : Bool) (d : Figures E)
    → IsReported d
    → prop_scenario_report_success_failure_sum checks (arb_scenario_report d) ≡ true
unfolding prop_scenario_report_success_failure_sum arb_scenario_report
sums checks d v =
    let whole : d.success + (d.total - d.success) ≡ d.total = omega (arith, v.success_at_most) in
    rw
      (
        whole,
        prop_scenario_report_success_failure_sum,
        checked-lt checks (2 ^ 64) d.total (omega (arith, v.total_at_most)),
      )
      (==_refl d.total)

-- The property tests of the report pass, in both build profiles, where the elapsed times print
-- without a newline and a carriage return: for every report that their strategy can draw, success
-- and failure add up to the total, the printed report is read back, and it holds all seven keys;
-- for every verdict and counts the last line tells PASS from FAIL, and it says N/A without them.
pub report_props_pass :
    {E : Type 0} (checks : Bool) (fixed_2 : E → Text) (d : Figures E) (elapsed : E) (passed : Bool)
    (expected actual : List ℕ) (n k : ℕ)
    → AllChars is_inline (fixed_2 d.elapsed_secs)
    → AllChars is_inline (fixed_2 elapsed)
    → IsReported d
    → (prop_scenario_report_success_failure_sum checks (arb_scenario_report d) ≡ true)
      × (prop_scenario_report_display_roundtrip fixed_2 (arb_scenario_report d) ≡ true)
      × (prop_scenario_report_display_field_completeness fixed_2 (arb_scenario_report d) ≡ true)
      × (prop_vote_integrity_display_roundtrip fixed_2 elapsed passed expected actual n ≡ true)
      × (prop_vote_integrity_na_display_roundtrip fixed_2 elapsed (other_mode k) ≡ true)
unfolding arb_scenario_report
report_props_pass checks fixed_2 d elapsed passed expected actual n k plain plain' v = (
  sums checks d v,
  round_trip fixed_2 (arb_scenario_report d) (arb_mode-inline d.mode) plain
      (omega (arith, v.total_at_most)) (omega (arith, v.total_at_most, v.success_at_most))
      (omega (arith, v.total_at_most)),
  complete fixed_2 (arb_scenario_report d),
  vote_round_trip fixed_2 elapsed passed expected actual n plain',
  na_round_trip fixed_2 elapsed k plain',
)
