-- ===== src/Bot/Scenario/Single.antt =====
-- `run_single_scenario` and `run_scenario` of src/bot/mod.rs. `received` is the counter of the
-- messages that the bots received, `outcome` is how a bot that is started
-- by the single runner ends, `mixed_outcome` what the handle of one of the mixed runner gives.
use rust_multichat_server.Base.{
  ℕ, zero, suc, ◌+◌, ◌*◌, ◌%◌, ◌^◌, ◌<◌, ◌≡◌, refl, ap, ◌∙◌, Bool, false, Option, none, some, List,
  [], ◌∷◌, codes, length, if◌then◌else◌, ◌==◌, Bool-cases, inl, inr, ◌⊎◌, arith,
}
use rust_multichat_server.Protocol.{Text}
use rust_multichat_server.Strings.{text_eq}
use rust_multichat_server.Bot.Kind.{
  BotType, normal, fickle, spammer, ghost, quitter, ParseError, ok, err,
}
use rust_multichat_server.Bot.Scenario.{
  ScenarioReport, Joined, succeeded, count_joined, Measured, full_report, single_report,
  allocate_panics, waits, finished, run_mixed_scenario,
}
use rust_multichat_server.Bot.Scenario.Counts.{count_joined-sum}

-- The bot that a task of the single scenario runs; an unknown mode runs none.
unfoldable pub mode_bot : Text → Option BotType
unfolding text_eq
mode_bot mode =
    if text_eq mode (codes "normal")
    then some normal
    else if text_eq mode (codes "fickle")
    then some fickle
    else if text_eq mode (codes "spammer")
    then some spammer
    else if text_eq mode (codes "ghost")
    then some ghost
    else if text_eq mode (codes "quitter")
    then some quitter
    else none

unfoldable pub single_outcome : Text → (ℕ × BotType → Joined) → ℕ → Joined
unfolding mode_bot
single_outcome mode outcome i = elim (mode_bot mode) [
  | none ↦ succeeded
  | some bt ↦ outcome (i, bt)
]

-- The ends of the bots with numbers from `i` on.
unfoldable pub single_outcomes : Text → (ℕ × BotType → Joined) → ℕ → ℕ → List Joined
unfolding single_outcome
single_outcomes mode outcome i zero = []
single_outcomes mode outcome i (suc left) =
    single_outcome mode outcome i ∷ single_outcomes mode outcome (suc i) left

-- How `run_scenario` ends.
pub data Ended (E : Type 0) : Type 0 where
  bad_ratio : ParseError → Ended E
  panicked : Ended E
  stuck : Ended E  -- it never ends
  reported : ScenarioReport E → Ended E

module _ {E : Type 0} where
  unfoldable pub run_single_scenario :
      Text → ℕ → ℕ → ℕ → (ℕ × BotType → Joined) → Measured E → Option (ScenarioReport E)
  unfolding single_outcomes single_report
  run_single_scenario mode count msg_per_bot received outcome m =
      single_report mode count msg_per_bot received (single_outcomes mode outcome 0 count) m

  unfoldable pub run_scenario :
      Bool
      → Text
      → ℕ
      → ℕ
      → Option Text
      → ℕ
      → (ℕ × BotType → Joined)
      → (ℕ × BotType → Option Joined)
      → Measured E
      → Ended E
  unfolding run_single_scenario run_mixed_scenario
  run_scenario checks mode count msg_per_bot ratio received outcome mixed_outcome m =
      if text_eq mode (codes "mixed")
      then elim (run_mixed_scenario checks count ratio mixed_outcome m) [
        | err e ↦ bad_ratio e
        | ok allocate_panics ↦ panicked
        | ok waits ↦ stuck
        | ok (finished report) ↦ reported report
      ]
      else elim (run_single_scenario mode count msg_per_bot received outcome m) [
        | none ↦ panicked
        | some report ↦ reported report
      ]

length-single_outcomes :
    (mode : Text) (outcome : ℕ × BotType → Joined) (i left : ℕ)
    → length (single_outcomes mode outcome i left) ≡ left
unfolding single_outcomes
length-single_outcomes mode outcome i zero = refl
length-single_outcomes mode outcome i (suc left) =
    ap suc (length-single_outcomes mode outcome (suc i) left)

unknown_outcome :
    (mode : Text) (outcome : ℕ × BotType → Joined) (i : ℕ)
    → mode_bot mode ≡ none
    → single_outcome mode outcome i ≡ succeeded
unfolding single_outcome
unknown_outcome mode outcome i unknown = rw (single_outcome, unknown) refl

succeeded_only :
    (mode : Text) (outcome : ℕ × BotType → Joined) (i left s f : ℕ)
    → mode_bot mode ≡ none
    → s + left < 2 ^ 64
    → count_joined (single_outcomes mode outcome i left) (s, f) ≡ (s + left, f)
unfolding single_outcomes count_joined
succeeded_only mode outcome i zero s f unknown h = ground arith
succeeded_only mode outcome i (suc left) s f unknown h =
    let next : (s + 1) % 2 ^ 64 ≡ s + 1 = omega arith in
    ap (λ j. count_joined (j ∷ single_outcomes mode outcome (suc i) left) (s, f))
      (unknown_outcome mode outcome i unknown)
    ∙ ap (λ n. count_joined (single_outcomes mode outcome (suc i) left) (n, f)) next
    ∙ succeeded_only mode outcome (suc i) left (s + 1) f unknown (omega arith)
    ∙ ap (λ (n : ℕ). (n, f)) (omega arith)

not_normal : (mode : Text) → mode_bot mode ≡ none → text_eq mode (codes "normal") ≡ false
unfolding mode_bot
not_normal mode unknown = elim (Bool-cases (text_eq mode (codes "normal"))) [
  | inl e ↦ absurd (ground arith)
  | inr e ↦ e
]

module _ {E : Type 0} where
  -- A run in one mode whose number of messages fits 64 bits comes to a report in every mode but the
  -- normal one, and in the normal mode where as many messages were received as were sent; the
  -- report counts each bot once, as a success or as a failure.
  pub run_single_scenario_counts :
      (mode : Text) (count msg_per_bot received : ℕ) (outcome : ℕ × BotType → Joined)
      (m : Measured E)
      → count < 2 ^ 64
      → count * msg_per_bot < 2 ^ 64
      → (text_eq mode (codes "normal") ≡ false) ⊎ (received ≡ count * msg_per_bot)
      → (report : ScenarioReport E) × (run_single_scenario mode count msg_per_bot received outcome m
          ≡ some report)
        × (report.total_bots ≡ count)
        × (report.success_count + report.failure_count ≡ count)
  unfolding run_single_scenario single_report full_report
  run_single_scenario_counts mode count msg_per_bot received outcome m few fits due =
      let joined = single_outcomes mode outcome 0 count in
      let n = length-single_outcomes mode outcome 0 count in
      let same : (if text_eq mode (codes "normal")
            then (if ((count * msg_per_bot) % 2 ^ 64) == received
                then some (full_report mode count joined m)
                else none)
            else some (full_report mode count joined m))
          ≡ some (full_report mode count joined m) =
        ground arith in
      (
        full_report mode count joined m,
        same,
        refl,
        count_joined-sum joined 0 0 (omega (arith, n)) ∙ omega (arith, n),
      )

  -- With a mode other than `mixed` that names no bot, and fewer than 2 ^ 64 bots, the scenario is
  -- not refused: it comes to a report that counts every bot as a success and none as a failure.
  pub unknown_mode_succeeds :
      (checks : Bool) (mode : Text) (count msg_per_bot : ℕ) (ratio : Option Text) (received : ℕ)
      (outcome : ℕ × BotType → Joined) (mixed_outcome : ℕ × BotType → Option Joined)
      (m : Measured E)
      → mode_bot mode ≡ none
      → text_eq mode (codes "mixed") ≡ false
      → count < 2 ^ 64
      → (report : ScenarioReport E) × (run_scenario checks mode count msg_per_bot ratio received
            outcome mixed_outcome m
          ≡ reported report)
        × (report.success_count ≡ count)
        × (report.failure_count ≡ 0)
  unfolding run_scenario run_single_scenario single_report full_report
  unknown_mode_succeeds checks mode count msg_per_bot ratio received outcome mixed_outcome m unknown
        single few =
      let e = succeeded_only mode outcome 0 count 0 0 unknown (omega arith) in
      (
        full_report mode count (single_outcomes mode outcome 0 count) m,
        rw (run_scenario, single, run_single_scenario, single_report, not_normal mode unknown) refl,
        ap (λ p. p.0) e ∙ omega arith,
        ap (λ p. p.1) e,
      )
