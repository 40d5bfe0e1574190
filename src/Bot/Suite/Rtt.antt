-- ===== src/Bot/Suite/Rtt.antt =====
-- The tests of `RttCounter` in src/bot/mod.rs; the property test holds for every input.
use rust_multichat_server.Base.{
  ℕ, ◌*◌, ◌/◌, ◌%◌, ◌^◌, ◌≤◌, ◌<◌, ◌≡◌, refl, Bool, true, none, some, List, [], ◌∷◌, ◌==◌, ==_refl,
  length, sum, arith, if◌then◌else◌, Bool-cases, inl, inr,
}
use rust_multichat_server.Bot.Rtt.{new, record_rtt, average, record_all, average-record_all}
use rust_multichat_server.Bot.Suite.{option_eq}
use rust_multichat_server.Bot.Suite.Strategies.{InRange}

unfoldable pub rtt_counter_record_and_average : Bool
unfolding record_rtt average option_eq new
rtt_counter_record_and_average =
    let counter = record_rtt 30 (record_rtt 20 (record_rtt 10 new)) in
    option_eq (average counter) (some 20)

unfoldable pub rtt_counter_empty_average_is_none : Bool
unfolding average option_eq new
rtt_counter_empty_average_is_none = option_eq (average new) none

unfoldable pub prop_rtt_counter_average_correctness : List ℕ → Bool
unfolding record_all average option_eq new
prop_rtt_counter_average_correctness values =
    let counter = record_all values new in
    let expected_sum = sum values % 2 ^ 64 in
    let expected_avg = expected_sum / length values in
    if length values == 0
    then option_eq (average counter) none
    else option_eq (average counter) (some expected_avg)

rtt_tests_pass :
    (rtt_counter_record_and_average ≡ true) × (rtt_counter_empty_average_is_none ≡ true)
unfolding rtt_counter_record_and_average rtt_counter_empty_average_is_none
rtt_tests_pass = (refl, refl)

abbrev pub AllInRange : ℕ → ℕ → List ℕ → Type 0
AllInRange low high [] = Unit
AllInRange low high (v ∷ vs) = InRange low high v × AllInRange low high vs

pub sum_small : (high : ℕ) (vs : List ℕ) → AllInRange 1 high vs → sum vs ≤ high * length vs
sum_small high [] a = omega arith
sum_small high (v ∷ vs) a = grind (arith, sum_small high vs a.1)

-- The property test of the counter passes for fewer than 100 values from 1 to 10000.
pub rtt_prop_passes :
    (values : List ℕ)
    → AllInRange 1 10000 values
    → length values < 100
    → prop_rtt_counter_average_correctness values ≡ true
unfolding prop_rtt_counter_average_correctness
rtt_prop_passes values a n =
    let small : sum values < 2 ^ 64 = omega (arith, sum_small 10000 values a) in
    let mean = average-record_all values small (omega arith) in
    let exact : sum values % 2 ^ 64 ≡ sum values = omega arith in
    elim (Bool-cases (length values == 0)) [
      | inl e ↦ rw (mean, e) refl
      | inr e ↦ rw (mean, e, exact) (unfold option_eq in ==_refl (sum values / length values))
    ]
