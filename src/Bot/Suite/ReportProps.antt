-- ===== src/Bot/Suite/ReportProps.antt =====
-- The property tests of the report in src/bot/mod.rs. `fixed_2` is `{:.2}`, and `checks` tells
-- whether the build checks for overflow.
pub mod Pass
use rust_multichat_server.Base.{
  checked, ℕ, zero, suc, ◌+◌, ◌^◌, ◌≡◌, refl, Bool, true, false, ◌&&◌, not, Option, none, some,
  List, [], ◌∷◌, ◌++◌, ◌==◌, codes, if◌then◌else◌,
}
use rust_multichat_server.Protocol.{Text}
use rust_multichat_server.Strings.{text_eq, contains, to_string}
use rust_multichat_server.Strings.Lines.{lines}
use rust_multichat_server.Bot.Scenario.{ScenarioReport, display}
use rust_multichat_server.Bot.Suite.Report.{starts_with, integrity_report}
use rust_multichat_server.Bot.Suite.ReportParse.{parse_report_display}

unfoldable pub prop_scenario_report_success_failure_sum :
    {E : Type 0} → Bool → ScenarioReport E → Bool
unfolding checked
prop_scenario_report_success_failure_sum checks report =
    elim (checked checks (2 ^ 64) (report.success_count + report.failure_count)) [
      | none ↦ false
      | some sum ↦ sum == report.total_bots
    ]

-- `expected_rtt`.
unfoldable pub expected_rtt : Option ℕ → Text
unfolding to_string
expected_rtt (some ms) = to_string ms ++ codes "ms"
expected_rtt none = codes "N/A"

unfoldable pub prop_scenario_report_display_roundtrip :
    {E : Type 0} → (E → Text) → ScenarioReport E → Bool
unfolding display parse_report_display text_eq expected_rtt
prop_scenario_report_display_roundtrip fixed_2 report =
    elim (parse_report_display (display fixed_2 report)) [
      | none ↦ false
      | some p ↦
          text_eq p.0 report.mode
          && p.1 == report.total_bots
          && p.2 == report.success_count
          && p.3 == report.failure_count
          && text_eq p.4 (fixed_2 report.elapsed_secs ++ codes "s")
          && text_eq p.5 (expected_rtt report.avg_rtt_ms)
    ]

abbrev pub required_keys : List Text
required_keys =
    codes "mode:"
    ∷ codes "total_bots:"
    ∷ codes "success:"
    ∷ codes "failure:"
    ∷ codes "elapsed:"
    ∷ codes "avg_rtt:"
    ∷ codes "vote_integrity:"
    ∷ []

unfoldable pub holds_all : Text → List Text → Bool
unfolding contains
holds_all output [] = true
holds_all output (key ∷ keys) = contains key output && holds_all output keys

unfoldable pub prop_scenario_report_display_field_completeness :
    {E : Type 0} → (E → Text) → ScenarioReport E → Bool
unfolding display holds_all
prop_scenario_report_display_field_completeness fixed_2 report =
    holds_all (display fixed_2 report) required_keys

-- `lines().find(|l| l.starts_with(prefix))`.
unfoldable pub find_line : Text → List Text → Option Text
unfolding starts_with
find_line prefix [] = none
find_line prefix (l ∷ ls) = if starts_with prefix l then some l else find_line prefix ls

unfoldable pub prop_vote_integrity_display_roundtrip :
    {E : Type 0} → (E → Text) → E → Bool → List ℕ → List ℕ → ℕ → Bool
unfolding display lines find_line contains integrity_report
prop_vote_integrity_display_roundtrip fixed_2 elapsed passed expected actual fickle_count =
    let report = integrity_report fixed_2 elapsed (codes "fickle") (
      some (record {
        passed = passed;
        expected = expected;
        actual = actual;
        fickle_count = fickle_count;
      })) in
    elim (find_line (codes "vote_integrity:") (lines (display fixed_2 report))) [
      | none ↦ false
      | some vi_line ↦
          if passed
          then contains (codes "PASS") vi_line && not (contains (codes "FAIL") vi_line)
          else contains (codes "FAIL") vi_line
    ]

-- The mode, by the number of the alternative.
unfoldable pub other_mode : ℕ → Text
other_mode zero = codes "normal"
other_mode (suc zero) = codes "ghost"
other_mode (suc (suc n)) = codes "quitter"

unfoldable pub prop_vote_integrity_na_display_roundtrip :
    {E : Type 0} → (E → Text) → E → Text → Bool
unfolding display lines find_line contains integrity_report
prop_vote_integrity_na_display_roundtrip fixed_2 elapsed mode =
    let report = integrity_report fixed_2 elapsed mode none in
    elim (find_line (codes "vote_integrity:") (lines (display fixed_2 report))) [
      | none ↦ false
      | some vi_line ↦ contains (codes "N/A") vi_line
    ]
