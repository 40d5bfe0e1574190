-- ===== src/Bot/Scenario.antt =====
-- The scenario runners of src/bot/mod.rs and the text of their report: which bots run, how their
-- ends are counted, and what is reported. What a bot does is an argument; `E` is the type of the
-- elapsed seconds, `f64` in the source.
pub mod Counts
pub mod Single
use rust_multichat_server.Base.{
  ℕ, zero, suc, ◌+◌, ◌*◌, ◌%◌, ◌^◌, ◌<◌, ◌≡◌, refl, sym, ap, ◌∙◌, Bool, true, false, ◌&&◌, Option,
  none, some, List, [], ◌∷◌, ◌++◌, codes, map, length, length-append, sum, max, if◌then◌else◌, ◌==◌,
  arith,
}
use rust_multichat_server.Protocol.{Text}
use rust_multichat_server.Strings.{text_eq, join, to_string}
use rust_multichat_server.Bot.Rtt.{RttCounter, average}
use rust_multichat_server.Bot.Tally.{FickleResult, VoteIntegrityResult, vote_integrity}
use rust_multichat_server.Bot.Kind.{BotType, fickle, Result, ok, err, ParseError, from_str}
use rust_multichat_server.Bot.Ratio.{RatioSpec, parse, default}
use rust_multichat_server.Bot.Allocate.{allocate}

pub record ScenarioReport (E : Type 0) : Type 0 where
  pub mode : Text
  pub total_bots : ℕ
  pub success_count : ℕ
  pub failure_count : ℕ
  pub elapsed_secs : E
  pub avg_rtt_ms : Option ℕ
  pub vote_integrity : Option VoteIntegrityResult

-- What `handle.await` gives.
pub data Joined : Type 0 where
  succeeded : Joined  -- Ok(Ok(()))
  bot_failed : Joined  -- Ok(Err(_))
  join_error : Joined  -- Err(_join_err)

unfoldable pub count_joined : List Joined → ℕ × ℕ → ℕ × ℕ
count_joined [] (s, f) = (s, f)
count_joined (succeeded ∷ js) (s, f) = count_joined js ((s + 1) % 2 ^ 64, f)
count_joined (bot_failed ∷ js) (s, f) = count_joined js (s, (f + 1) % 2 ^ 64)
count_joined (join_error ∷ js) (s, f) = count_joined js (s, (f + 1) % 2 ^ 64)

-- The bots of one type in the order in which they are spawned, with ids from `bot_id` on.
unfoldable pub spawn_type : BotType → ℕ → ℕ → List (ℕ × BotType)
spawn_type bt zero bot_id = []
spawn_type bt (suc n) bot_id = (bot_id, bt) ∷ spawn_type bt n ((bot_id + 1) % 2 ^ 64)

unfoldable pub spawn_all : List (BotType × ℕ) → ℕ → List (ℕ × BotType)
unfolding spawn_type
spawn_all [] bot_id = []
spawn_all ((bt, n) ∷ allocation) bot_id =
    spawn_type bt n bot_id ++ spawn_all allocation ((bot_id + n) % 2 ^ 64)

unfoldable pub is_fickle : BotType → Bool
is_fickle fickle = true
is_fickle _ = false

unfoldable pub count_fickle : List (BotType × ℕ) → ℕ
unfolding is_fickle
count_fickle [] = 0
count_fickle ((bt, n) ∷ allocation) = (if is_fickle bt then n else 0) + count_fickle allocation

-- The sizes of the barriers of the two runners.
unfoldable pub mixed_barrier : List (BotType × ℕ) → ℕ
unfolding count_fickle
mixed_barrier allocation = max (count_fickle allocation) 1

unfoldable pub single_barrier : Text → ℕ → ℕ
single_barrier mode count = if text_eq mode (codes "fickle") then max count 1 else 1

unfoldable pub mixed_spec : Option Text → Result ParseError RatioSpec
mixed_spec none = parse default
mixed_spec (some r) = parse r

-- What a run leaves for the report: the elapsed time, the round trips, the results of the fickle
-- bots, and the order of the hash map of snapshots.
pub record Measured (E : Type 0) : Type 0 where
  pub elapsed_secs : E
  pub rtt_counter : RttCounter
  pub fickle_results : List FickleResult
  pub order : List (List ℕ × ℕ) → List (List ℕ × ℕ)

-- Where a mixed scenario with a good ratio ends: in a panic of `allocate`, nowhere, or in a report.
pub data MixedEnd (E : Type 0) : Type 0 where
  allocate_panics : MixedEnd E
  waits : MixedEnd E
  finished : ScenarioReport E → MixedEnd E

-- `handle.await` on each handle in turn; `none` is a task that never ends.
unfoldable pub await_all : List (Option Joined) → Option (List Joined)
await_all [] = some []
await_all (none ∷ handles) = none
await_all (some joined ∷ handles) = elim (await_all handles) [
  | none ↦ none
  | some rest ↦ some (joined ∷ rest)
]

module _ {E : Type 0} where
  unfoldable pub mixed_report : ℕ → List Joined → Measured E → ScenarioReport E
  unfolding count_joined
  mixed_report count joined m =
      let counts = count_joined joined (0, 0) in
      record {
        mode = codes "mixed";
        total_bots = count;
        success_count = counts.0;
        failure_count = counts.1;
        elapsed_secs = m.elapsed_secs;
        avg_rtt_ms = average m.rtt_counter;
        vote_integrity = vote_integrity m.order m.fickle_results;
      }

  -- `outcome` is what each bot's handle gives. A fickle bot that comes to a barrier which does not
  -- open has none.
  unfoldable pub run_mixed_scenario :
      Bool
      → ℕ
      → Option Text
      → (ℕ × BotType → Option Joined)
      → Measured E
      → Result ParseError (MixedEnd E)
  unfolding mixed_spec spawn_all await_all mixed_report
  run_mixed_scenario checks count ratio outcome m = elim (mixed_spec ratio) [
    | err e ↦ err e
    | ok spec ↦ elim (allocate checks count spec) [
      | none ↦ ok allocate_panics
      | some allocation ↦ elim (await_all (map outcome (spawn_all allocation 0))) [
        | none ↦ ok waits
        | some joined ↦ ok (finished (mixed_report count joined m))
      ]
    ]
  ]

  unfoldable pub full_report : Text → ℕ → List Joined → Measured E → ScenarioReport E
  unfolding count_joined
  full_report mode count joined m =
      let counts = count_joined joined (0, 0) in
      let checked = text_eq mode (codes "fickle") in
      record {
        mode = mode;
        total_bots = count;
        success_count = counts.0;
        failure_count = counts.1;
        elapsed_secs = m.elapsed_secs;
        avg_rtt_ms = average m.rtt_counter;
        vote_integrity = if checked then vote_integrity m.order m.fickle_results else none;
      }

  -- `none` is the failed assertion of the normal mode: `received` is the counter of the messages
  -- that were received.
  unfoldable pub single_report :
      Text → ℕ → ℕ → ℕ → List Joined → Measured E → Option (ScenarioReport E)
  unfolding full_report
  single_report mode count msg_per_bot received joined m =
      let report = full_report mode count joined m in
      if text_eq mode (codes "normal")
      then (if ((count * msg_per_bot) % 2 ^ 64) == received then some report else none)
      else some report

-- `{:?}` of an array of numbers that is not empty, after its bracket.
unfoldable pub debug_numbers : List ℕ → Text
debug_numbers [] = codes "]"
debug_numbers (n ∷ []) = to_string n ++ codes "]"
debug_numbers (n ∷ m ∷ ns) = to_string n ++ (codes ", " ++ debug_numbers (m ∷ ns))

unfoldable pub rtt_str : Option ℕ → Text
rtt_str none = codes "N/A"
rtt_str (some ms) = to_string ms ++ codes "ms"

unfoldable pub vote_integrity_str : Option VoteIntegrityResult → Text
unfolding debug_numbers
vote_integrity_str none = codes "N/A"
vote_integrity_str (some vi) =
    (if vi.passed then codes "PASS" else codes "FAIL")
    ++ (codes " (expected=["
        ++ (debug_numbers vi.expected
            ++ (codes ", actual=["
                ++ (debug_numbers vi.actual
                    ++ (codes ", fickle_bots=" ++ (to_string vi.fickle_count ++ codes ")"))))))

-- `Display`; `fixed_2` is `{:.2}`.
unfoldable pub display : {E : Type 0} → (E → Text) → ScenarioReport E → Text
unfolding rtt_str vote_integrity_str
display fixed_2 r = join b'\n' (
    codes "=== Scenario Report ==="
    ∷ (codes "mode: " ++ r.mode)
    ∷ (codes "total_bots: " ++ to_string r.total_bots)
    ∷ (codes "success: " ++ to_string r.success_count)
    ∷ (codes "failure: " ++ to_string r.failure_count)
    ∷ (codes "elapsed: " ++ (fixed_2 r.elapsed_secs ++ codes "s"))
    ∷ (codes "avg_rtt: " ++ rtt_str r.avg_rtt_ms)
    ∷ (codes "vote_integrity: " ++ vote_integrity_str r.vote_integrity)
    ∷ [])
