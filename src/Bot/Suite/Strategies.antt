-- ===== src/Bot/Suite/Strategies.antt =====
-- The strategies of the property tests: what they draw, and the value that they make of it.
use rust_multichat_server.Base.{
  ℕ, zero, suc, ◌-◌, ◌≤◌, ◌≡◌, Option, none, some, List, [], ◌∷◌, take, codes, map,
}
use rust_multichat_server.Protocol.{Text}
use rust_multichat_server.Bot.Kind.{BotType, normal, fickle, spammer, ghost, quitter}
use rust_multichat_server.Bot.Ratio.{RatioSpec}
use rust_multichat_server.Bot.Scenario.{ScenarioReport}

-- `prop_oneof!` of the five types, by the number of the alternative.
unfoldable pub arb_bot_type : ℕ → BotType
arb_bot_type zero = normal
arb_bot_type (suc zero) = fickle
arb_bot_type (suc (suc zero)) = spammer
arb_bot_type (suc (suc (suc zero))) = ghost
arb_bot_type (suc (suc (suc (suc n)))) = quitter

pub record Ratios : Type 0 where
  pub r1 : ℕ
  pub r2 : ℕ
  pub r3 : ℕ
  pub r4 : ℕ
  pub r5 : ℕ
  pub count : ℕ

abbrev pub InRange : ℕ → ℕ → ℕ → Type 0
InRange low high n = (low ≤ n) × (n ≤ high)

-- The ranges that the numbers are drawn from.
pub record IsDrawn (d : Ratios) : Type 0 where
  pub one : InRange 1 100 d.r1
  pub two : InRange 1 100 d.r2
  pub three : InRange 1 100 d.r3
  pub four : InRange 1 100 d.r4
  pub five : InRange 1 100 d.r5
  pub some_entries : InRange 1 5 d.count

unfoldable pub arb_ratio_entries : Ratios → List (BotType × ℕ)
arb_ratio_entries d =
    take d.count
      ((normal, d.r1) ∷ (spammer, d.r2) ∷ (fickle, d.r3) ∷ (ghost, d.r4) ∷ (quitter, d.r5) ∷ [])

unfoldable pub arb_ratio_spec : Ratios → RatioSpec
unfolding arb_ratio_entries
arb_ratio_spec d = record { entries = arb_ratio_entries d }

-- The mode of a report, by the number of the alternative.
unfoldable pub arb_mode : ℕ → Text
arb_mode zero = codes "normal"
arb_mode (suc zero) = codes "fickle"
arb_mode (suc (suc zero)) = codes "spammer"
arb_mode (suc (suc (suc zero))) = codes "ghost"
arb_mode (suc (suc (suc (suc zero)))) = codes "quitter"
arb_mode (suc (suc (suc (suc (suc n))))) = codes "mixed"

pub record Figures (E : Type 0) : Type 0 where
  pub mode : ℕ
  pub total : ℕ
  pub success : ℕ
  pub elapsed_secs : E
  pub avg_rtt_ms : Option ℕ

pub record IsReported {E : Type 0} (d : Figures E) : Type 0 where
  pub total_at_most : d.total ≤ 10000
  pub success_at_most : d.success ≤ d.total
  pub rtt_at_most : (ms : ℕ) → d.avg_rtt_ms ≡ some ms → ms ≤ 100000

unfoldable pub arb_scenario_report : {E : Type 0} → Figures E → ScenarioReport E
unfolding arb_mode
arb_scenario_report d = record {
  mode = arb_mode d.mode;
  total_bots = d.total;
  success_count = d.success;
  failure_count = d.total - d.success;
  elapsed_secs = d.elapsed_secs;
  avg_rtt_ms = d.avg_rtt_ms;
  vote_integrity = none;
}

-- What `arb_vote_list` draws for a vote.
pub data Drawn : Type 0 where
  valid : ℕ → Drawn
  out_of_range : ℕ → Drawn
  no_vote : Drawn

unfoldable pub drawn_vote : Drawn → Option ℕ
drawn_vote (valid n) = some n
drawn_vote (out_of_range n) = some n
drawn_vote no_vote = none

unfoldable pub arb_vote_list : List Drawn → List (Option ℕ)
unfolding drawn_vote
arb_vote_list ds = map drawn_vote ds
