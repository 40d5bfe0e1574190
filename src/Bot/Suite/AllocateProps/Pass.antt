-- ===== src/Bot/Suite/AllocateProps/Pass.antt =====
-- The property tests of `allocate` in src/bot/mod.rs hold for every input.
use rust_multichat_server.Base.{
  ℕ, ◌+◌, ◌*◌, ◌^◌, ◌≤◌, ◌<◌, ◌≡◌, inl, inr, refl, ap, ◌∙◌, Bool, true, some, List, ◌∷◌, ==_refl,
  leb, length, arith, Bool-cases,
}
use rust_multichat_server.Bot.Kind.{BotType}
use rust_multichat_server.Bot.Allocate.{allocate}
use rust_multichat_server.Bot.Allocate.Shares.{ratio_total}
use rust_multichat_server.Bot.Allocate.Total.{allocate-total}
use rust_multichat_server.Bot.Allocate.Fair.{allocate-fair, ratio_of, floor_of, ServedBefore}
use rust_multichat_server.Bot.Suite.Drawn.{arb_ratio_entries-HasForm}
use rust_multichat_server.Bot.Suite.Strategies.{Ratios, IsDrawn, arb_ratio_spec}
use rust_multichat_server.Bot.Suite.AllocateProps.Loops.{
  sum_wide-ratio_total, NoneBelow, at_floor_lem, found, in_order_lem,
}
use rust_multichat_server.Bot.Suite.AllocateProps.{
  prop_allocation_sum_equals_total, sum_wide, prop_proportional_allocation,
  prop_remainder_allocation_order,
}

-- The facts on the results of the drawn specifications that the tests ask for.
module _ (checks : Bool) (total : ℕ) (first : BotType × ℕ) (others : List (BotType × ℕ))
    (few : total ≤ 10000) (pos : 0 < ratio_total (first ∷ others))
    (small : ratio_total (first ∷ others) ≤ 500) where
  abbrev whole_spec : List (BotType × ℕ)
  whole_spec = first ∷ others

  fits : total * ratio_total whole_spec < 2 ^ 64
  fits = grind arith

  in_u32 : ratio_total whole_spec < 2 ^ 32
  in_u32 = omega arith

  sums : prop_allocation_sum_equals_total checks total (record { entries = whole_spec }) ≡ true
  unfolding prop_allocation_sum_equals_total
  sums =
      let (result, e, sum, n) = allocate-total checks total first others pos in_u32 fits in
      rw (prop_allocation_sum_equals_total, e, sum) (==_refl total)

  fair_at :
      (result : List (BotType × ℕ)) (k m : ℕ)
      → allocate checks total (record { entries = whole_spec }) ≡ some result
      → k < length whole_spec
      → m < length whole_spec
      → ServedBefore whole_spec k m
      → (floor_of total whole_spec k ≤ ratio_of result k)
        × (ratio_of result m + floor_of total whole_spec k
            ≤ ratio_of result k + floor_of total whole_spec m)
  fair_at result k m e h l b =
      let (other, e', low, high, more) =
        allocate-fair checks total first others k m pos in_u32 fits h l b in
      let same : other ≡ result = cc in rw (← same) (low, more)

  none_below :
      (result : List (BotType × ℕ))
      → allocate checks total (record { entries = whole_spec }) ≡ some result
      → NoneBelow checks total (ratio_total whole_spec) pos fits whole_spec result
  none_below result e k h = (fair_at result k k e h h (inr (refl, omega arith))).0

  wide : sum_wide checks 0 whole_spec ≡ some (ratio_total whole_spec)
  wide = sum_wide-ratio_total checks 0 whole_spec (omega arith) ∙ ap some (omega arith)

  proportional : prop_proportional_allocation checks total (record { entries = whole_spec }) ≡ true
  unfolding prop_proportional_allocation
  proportional =
      let (result, e, sum, n) = allocate-total checks total first others pos in_u32 fits in
      rw (prop_proportional_allocation, e, wide)
        (at_floor_lem checks total (ratio_total whole_spec) pos fits whole_spec result (omega arith)
          n (none_below result e))

  ordered : prop_remainder_allocation_order checks total (record { entries = whole_spec }) ≡ true
  unfolding prop_remainder_allocation_order
  ordered =
      let (result, e, sum, n) = allocate-total checks total first others pos in_u32 fits in
      let f =
        found checks total (ratio_total whole_spec) pos fits whole_spec result (omega arith) n
          (none_below result e) in
      rw (prop_remainder_allocation_order, e, wide, f.computed)
        (in_order_lem f.rs f.rs (λ k h more m l none_left.
          let (ek, rk) = f.each k (omega (arith, f.as_many)) in
          let (em, rm) = f.each m (omega (arith, f.as_many)) in
          elim (Bool-cases (leb (ratio_of whole_spec m) (ratio_of whole_spec k))) [
            | inl no_more ↦ ground (arith, rk, rm)
            | inr larger ↦
                let b : ServedBefore whole_spec m k = inl (ground arith) in
                absurd (
                  omega (
                    arith,
                    ek,
                    em,
                    more,
                    none_left,
                    fair_at result m k e (omega (arith, f.as_many)) (omega (arith, f.as_many)) b,
                  ))
          ]))

-- Whether or not the build checks for overflow, the property tests of `allocate` pass for every
-- number of bots up to 10000 and every specification that their strategy can draw: the counts add up
-- to the number of bots; none is below its share rounded down; and an entry with a count above
-- that share has no smaller ratio than an entry without.
pub allocate_props_pass :
    (checks : Bool) (total : ℕ) (d : Ratios)
    → total ≤ 10000
    → IsDrawn d
    → (prop_allocation_sum_equals_total checks total (arb_ratio_spec d) ≡ true)
      × (prop_proportional_allocation checks total (arb_ratio_spec d) ≡ true)
      × (prop_remainder_allocation_order checks total (arb_ratio_spec d) ≡ true)
unfolding arb_ratio_spec
allocate_props_pass checks total d few drawn =
    let f = arb_ratio_entries-HasForm d drawn in
    rw (f.whole) (
      sums checks total f.first f.others few f.positive f.small,
      proportional checks total f.first f.others few f.positive f.small,
      ordered checks total f.first f.others few f.positive f.small,
    )
