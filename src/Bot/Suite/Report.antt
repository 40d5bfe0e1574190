-- ===== src/Bot/Suite/Report.antt =====
-- The unit tests of the printed report in src/bot/mod.rs, and their runs. `fixed_2` is `{:.2}`.
use rust_multichat_server.Base.{
  ◌≡◌, refl, Bool, true, false, ◌&&◌, not, Option, none, some, List, [], ◌∷◌, codes, if◌then◌else◌,
}
use rust_multichat_server.Protocol.{Text}
use rust_multichat_server.Strings.{join, strip_prefix, contains, to_string, after_first}
use rust_multichat_server.Strings.Lines.{lines, lines_from}
use rust_multichat_server.Bot.Tally.{VoteIntegrityResult}
use rust_multichat_server.Bot.Scenario.{
  ScenarioReport, debug_numbers, rtt_str, vote_integrity_str, display,
}

-- `line.starts_with(prefix)`.
unfoldable pub starts_with : Text → Text → Bool
unfolding strip_prefix
starts_with prefix line = elim (strip_prefix prefix line) [ none ↦ false | some rest ↦ true ]

module _ {E : Type 0} (fixed_2 : E → Text) (elapsed : E) where
  unfoldable pub scenario_report_display_all_fields : Bool
  unfolding display contains
  scenario_report_display_all_fields =
      let report : ScenarioReport E = record {
        mode = codes "normal";
        total_bots = 100;
        success_count = 95;
        failure_count = 5;
        elapsed_secs = elapsed;
        avg_rtt_ms = some 42;
        vote_integrity = none;
      } in
      let output = display fixed_2 report in
      contains (codes "=== Scenario Report ===") output
      && contains (codes "mode: normal") output
      && contains (codes "total_bots: 100") output
      && contains (codes "success: 95") output
      && contains (codes "failure: 5") output
      && contains (codes "elapsed: 12.35s") output
      && contains (codes "avg_rtt: 42ms") output

  -- The loop over the lines.
  unfoldable pub no_unit : List Text → Bool
  unfolding starts_with contains
  no_unit [] = true
  no_unit (line ∷ ls) =
      (if starts_with (codes "avg_rtt:") line then not (contains (codes "ms") line) else true)
      && no_unit ls

  unfoldable pub scenario_report_display_rtt_none_shows_na : Bool
  unfolding display contains lines no_unit
  scenario_report_display_rtt_none_shows_na =
      let report : ScenarioReport E = record {
        mode = codes "ghost";
        total_bots = 10;
        success_count = 10;
        failure_count = 0;
        elapsed_secs = elapsed;
        avg_rtt_ms = none;
        vote_integrity = none;
      } in
      let output = display fixed_2 report in
      contains (codes "avg_rtt: N/A") output && no_unit (lines output)

  -- The report of the tests of the vote integrity line.
  unfoldable pub integrity_report : Text → Option VoteIntegrityResult → ScenarioReport E
  integrity_report mode result = record {
    mode = mode;
    total_bots = 10;
    success_count = 10;
    failure_count = 0;
    elapsed_secs = elapsed;
    avg_rtt_ms = none;
    vote_integrity = result;
  }

  unfoldable pub scenario_report_display_vote_integrity_pass : Bool
  unfolding display contains integrity_report
  scenario_report_display_vote_integrity_pass =
      let result : VoteIntegrityResult = record {
        passed = true;
        expected = 3 ∷ 2 ∷ 3 ∷ 2 ∷ [];
        actual = 3 ∷ 2 ∷ 3 ∷ 2 ∷ [];
        fickle_count = 10;
      } in
      contains (codes "vote_integrity: PASS")
        (display fixed_2 (integrity_report (codes "fickle") (some result)))

  unfoldable pub scenario_report_display_vote_integrity_fail : Bool
  unfolding display contains integrity_report
  scenario_report_display_vote_integrity_fail =
      let result : VoteIntegrityResult = record {
        passed = false;
        expected = 3 ∷ 2 ∷ 3 ∷ 2 ∷ [];
        actual = 2 ∷ 2 ∷ 3 ∷ 2 ∷ [];
        fickle_count = 10;
      } in
      contains (codes "vote_integrity: FAIL")
        (display fixed_2 (integrity_report (codes "fickle") (some result)))

  unfoldable pub scenario_report_display_vote_integrity_na : Bool
  unfolding display contains integrity_report
  scenario_report_display_vote_integrity_na =
      contains (codes "vote_integrity: N/A")
        (display fixed_2 (integrity_report (codes "normal") none))

  all_fields_pass : fixed_2 elapsed ≡ codes "12.35" → scenario_report_display_all_fields ≡ true
  unfolding scenario_report_display_all_fields display join rtt_str vote_integrity_str to_string
      contains after_first
  all_fields_pass e = rw e refl

  rtt_none_pass :
      fixed_2 elapsed ≡ codes "1.00"
      → (scenario_report_display_rtt_none_shows_na ≡ true)
        × (scenario_report_display_vote_integrity_pass ≡ true)
        × (scenario_report_display_vote_integrity_fail ≡ true)
        × (scenario_report_display_vote_integrity_na ≡ true)
  unfolding scenario_report_display_rtt_none_shows_na scenario_report_display_vote_integrity_pass
      scenario_report_display_vote_integrity_fail scenario_report_display_vote_integrity_na display
      join rtt_str vote_integrity_str debug_numbers to_string contains after_first no_unit
      starts_with lines lines_from
  rtt_none_pass e = rw e (refl, refl, refl, refl)
