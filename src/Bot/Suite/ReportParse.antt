-- ===== src/Bot/Suite/ReportParse.antt =====
-- `parse_report_display` of the tests in src/bot/mod.rs, and what it reads from a printed report.
use rust_multichat_server.Base.{
  ℕ, ◌≤◌, ◌<◌, ◌≡◌, refl, Bool, true, false, Option, none, some, List, [], ◌∷◌, ◌++◌, codes, arith,
  ◌>>=◌, if◌then◌else◌, ◌+◌,
}
use mathlib.Core.List.{cons-ne-nil}
use rust_multichat_server.Protocol.{Text}
use rust_multichat_server.Strings.{max_u64, strip_prefix, parse_unsigned, to_string}
use rust_multichat_server.Strings.Decimal.{AllChars, to_string-AllChars, parse_unsigned-to_string}
use rust_multichat_server.Strings.Chars.{AllChars-append, test_all, test_all-AllChars}
use rust_multichat_server.Strings.Lines.{lines, is_inline, lines-join}
use rust_multichat_server.Bot.Scenario.{
  ScenarioReport, debug_numbers, rtt_str, vote_integrity_str, display,
}
use rust_multichat_server.Bot.Tally.{VoteIntegrityResult}

-- The local variables of the loop.
pub record Fields : Type 0 where
  pub mode : Option Text
  pub total_bots : Option ℕ
  pub success : Option ℕ
  pub failure : Option ℕ
  pub elapsed : Option Text
  pub avg_rtt : Option Text

abbrev pub no_fields : Fields
no_fields = record {
  mode = none;
  total_bots = none;
  success = none;
  failure = none;
  elapsed = none;
  avg_rtt = none;
}

-- The body of the loop; `none` is the early return of a number that does not parse.
unfoldable pub read_field : Text → Fields → Option Fields
unfolding strip_prefix parse_unsigned
read_field line f = elim (strip_prefix (codes "mode: ") line) [
  | some v ↦ some (record f { mode = some v })
  | none ↦ elim (strip_prefix (codes "total_bots: ") line) [
    | some v ↦ (parse_unsigned max_u64 v >>= λ n. some (record f { total_bots = some n }))
    | none ↦ elim (strip_prefix (codes "success: ") line) [
      | some v ↦ (parse_unsigned max_u64 v >>= λ n. some (record f { success = some n }))
      | none ↦ elim (strip_prefix (codes "failure: ") line) [
        | some v ↦ (parse_unsigned max_u64 v >>= λ n. some (record f { failure = some n }))
        | none ↦ elim (strip_prefix (codes "elapsed: ") line) [
          | some v ↦ some (record f { elapsed = some v })
          | none ↦ elim (strip_prefix (codes "avg_rtt: ") line) [
            | some v ↦ some (record f { avg_rtt = some v })
            | none ↦ some f
          ]
        ]
      ]
    ]
  ]
]

unfoldable pub read_fields : List Text → Fields → Option Fields
unfolding read_field
read_fields [] f = some f
read_fields (line ∷ ls) f = read_field line f >>= λ f'. read_fields ls f'

unfoldable pub parse_report_display : Text → Option (Text × ℕ × ℕ × ℕ × Text × Text)
unfolding lines read_fields
parse_report_display s = do
  f ← read_fields (lines s) no_fields
  mode ← f.mode
  total_bots ← f.total_bots
  success ← f.success
  failure ← f.failure
  elapsed ← f.elapsed
  avg_rtt ← f.avg_rtt
  some (mode, total_bots, success, failure, elapsed, avg_rtt)

-- The texts of a report keep a test that digits and the report's own marks pass.
module _ (p : ℕ → Bool) (digit : (d : ℕ) → d < 10 → p (b'0' + d) ≡ true)
    (marks : test_all p (codes " ()[],=N/") ≡ true) where
  literal : (s : Text) → test_all p s ≡ true → AllChars p s
  literal s h = test_all-AllChars p s h

  pub number : (n : ℕ) → AllChars p (to_string n)
  number = to_string-AllChars p digit

  pub debug_numbers-AllChars : (ns : List ℕ) → AllChars p (debug_numbers ns)
  unfolding debug_numbers
  debug_numbers-AllChars [] = literal (codes "]") (ground arith)
  debug_numbers-AllChars (n ∷ []) =
      AllChars-append p (to_string n) (codes "]") (number n) (literal (codes "]") (ground arith))
  debug_numbers-AllChars (n ∷ m ∷ ns) = AllChars-append p (to_string n) _ (number n) (
      AllChars-append p (codes ", ") _ (literal (codes ", ") (ground arith))
        (debug_numbers-AllChars (m ∷ ns)))

digit_inline : (d : ℕ) → d < 10 → is_inline (b'0' + d) ≡ true
digit_inline d h = ground arith

inline_number : (n : ℕ) → AllChars is_inline (to_string n)
inline_number = to_string-AllChars is_inline digit_inline

inline_numbers : (ns : List ℕ) → AllChars is_inline (debug_numbers ns)
inline_numbers = debug_numbers-AllChars is_inline digit_inline refl

-- A literal in front of an inline text.
after :
    (s t : Text) → test_all is_inline s ≡ true → AllChars is_inline t → AllChars is_inline (s ++ t)
after s t h a = AllChars-append is_inline s t (test_all-AllChars is_inline s h) a

inline_rtt : (o : Option ℕ) → AllChars is_inline (rtt_str o)
unfolding rtt_str
inline_rtt none = test_all-AllChars is_inline (codes "N/A") refl
inline_rtt (some ms) =
    AllChars-append is_inline (to_string ms) _ (inline_number ms)
      (test_all-AllChars is_inline (codes "ms") refl)

inline_verdict : (b : Bool) → AllChars is_inline (if b then codes "PASS" else codes "FAIL")
inline_verdict true = test_all-AllChars is_inline (codes "PASS") refl
inline_verdict false = test_all-AllChars is_inline (codes "FAIL") refl

inline_votes : (o : Option VoteIntegrityResult) → AllChars is_inline (vote_integrity_str o)
unfolding vote_integrity_str
inline_votes none = test_all-AllChars is_inline (codes "N/A") refl
inline_votes (some vi) = AllChars-append is_inline _ _ (inline_verdict vi.passed) (
    after (codes " (expected=[") _ refl (
      AllChars-append is_inline (debug_numbers vi.expected) _ (inline_numbers vi.expected) (
        after (codes ", actual=[") _ refl (
          AllChars-append is_inline (debug_numbers vi.actual) _ (inline_numbers vi.actual) (
            after (codes ", fickle_bots=") _ refl (
              AllChars-append is_inline (to_string vi.fickle_count) _
                (inline_number vi.fickle_count) (test_all-AllChars is_inline (codes ")") refl)))))))

module _ {E : Type 0} (fixed_2 : E → Text) (r : ScenarioReport E) where
  abbrev pub report_lines : List Text
  report_lines =
      codes "=== Scenario Report ==="
      ∷ (codes "mode: " ++ r.mode)
      ∷ (codes "total_bots: " ++ to_string r.total_bots)
      ∷ (codes "success: " ++ to_string r.success_count)
      ∷ (codes "failure: " ++ to_string r.failure_count)
      ∷ (codes "elapsed: " ++ (fixed_2 r.elapsed_secs ++ codes "s"))
      ∷ (codes "avg_rtt: " ++ rtt_str r.avg_rtt_ms)
      ∷ (codes "vote_integrity: " ++ vote_integrity_str r.vote_integrity)
      ∷ []

module _ {E : Type 0} (fixed_2 : E → Text) (r : ScenarioReport E)
    (inline_mode : AllChars is_inline r.mode)
    (inline_secs : AllChars is_inline (fixed_2 r.elapsed_secs)) where
  -- The lines of the printed report.
  pub lines-display : lines (display fixed_2 r) ≡ report_lines fixed_2 r
  unfolding display
  lines-display = lines-join (report_lines fixed_2 r) (
    cons-ne-nil _ _,
    test_all-AllChars is_inline (codes "=== Scenario Report ===") refl,
    (
      cons-ne-nil _ _,
      after (codes "mode: ") _ refl inline_mode,
      (
        cons-ne-nil _ _,
        after (codes "total_bots: ") _ refl (inline_number r.total_bots),
        (
          cons-ne-nil _ _,
          after (codes "success: ") _ refl (inline_number r.success_count),
          (
            cons-ne-nil _ _,
            after (codes "failure: ") _ refl (inline_number r.failure_count),
            (
              cons-ne-nil _ _,
              after (codes "elapsed: ") _ refl inline_elapsed,
              (
                cons-ne-nil _ _,
                after (codes "avg_rtt: ") _ refl (inline_rtt r.avg_rtt_ms),
                (
                  cons-ne-nil _ _,
                  after (codes "vote_integrity: ") _ refl (inline_votes r.vote_integrity),
                  tt,
                ),
              ),
            ),
          ),
        ),
      ),
    ),
  )
    where
      inline_elapsed : AllChars is_inline (fixed_2 r.elapsed_secs ++ codes "s")
      inline_elapsed =
          AllChars-append is_inline (fixed_2 r.elapsed_secs) _ inline_secs
            (test_all-AllChars is_inline (codes "s") refl)

-- A printed report is read back field by field: if its mode and the print of its elapsed time hold
-- no newline and no carriage return, and its counts are below 2 ^ 64, `parse_report_display` gives
-- the mode, the three counts, the elapsed time with its unit, and the text of the average.
pub parse_report_display-display :
    {E : Type 0} (fixed_2 : E → Text) (r : ScenarioReport E)
    → AllChars is_inline r.mode
    → AllChars is_inline (fixed_2 r.elapsed_secs)
    → r.total_bots ≤ max_u64
    → r.success_count ≤ max_u64
    → r.failure_count ≤ max_u64
    → parse_report_display (display fixed_2 r)
      ≡ some (
        r.mode,
        r.total_bots,
        r.success_count,
        r.failure_count,
        fixed_2 r.elapsed_secs ++ codes "s",
        rtt_str r.avg_rtt_ms,
      )
unfolding parse_report_display read_fields read_field strip_prefix
parse_report_display-display fixed_2 r inline_mode inline_secs t s f =
    rw
      (
        lines-display fixed_2 r inline_mode inline_secs,
        parse_unsigned-to_string max_u64 r.total_bots t,
        parse_unsigned-to_string max_u64 r.success_count s,
        parse_unsigned-to_string max_u64 r.failure_count f,
      )
      refl
