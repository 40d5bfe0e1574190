-- ===== src/Bot/Suite/AllocateProps.antt =====
-- The property tests of `allocate` in src/bot/mod.rs.
pub mod Loops
pub mod Pass
use Prim.Native.Nat.add
use rust_multichat_server.Base.{
  checked, checked-lt, ℕ, zero, suc, ◌+◌, ◌-◌, ◌*◌, ◌/◌, ◌^◌, ◌≤◌, ◌<◌, ◌≡◌, ◌⊎◌, inl, inr, refl,
  sym, ap, ◌∙◌, Bool, true, false, ◌&&◌, Option, none, some, List, [], ◌∷◌, ◌==◌, ==_refl, ltb, leb,
  length, map, arith, if◌then◌else◌, ◌>>=◌, Bool-cases,
}
use rust_multichat_server.Bot.Kind.{BotType}
use rust_multichat_server.Bot.Ratio.{RatioSpec}
use rust_multichat_server.Bot.Allocate.{floor_share, allocate}
use rust_multichat_server.Bot.Allocate.Shares.{ratio_total, floor_share-lt, ratio-le-total}
use rust_multichat_server.Bot.Allocate.Total.{allocate-total}
use rust_multichat_server.Bot.Allocate.Fair.{allocate-fair, ratio_of, floor_of, ServedBefore}
use rust_multichat_server.Bot.Suite.Allocate.{total_of}
use rust_multichat_server.Bot.Suite.Drawn.{HasForm, arb_ratio_entries-HasForm}
use rust_multichat_server.Bot.Suite.Strategies.{Ratios, IsDrawn, arb_ratio_entries, arb_ratio_spec}

unfoldable pub prop_allocation_sum_equals_total : Bool → ℕ → RatioSpec → Bool
unfolding allocate
prop_allocation_sum_equals_total checks total spec = elim (allocate checks total spec) [
  | none ↦ false
  | some result ↦ total_of result == total
]

-- `iter().map(|(_, r)| *r as u64).sum::<u64>()`.
unfoldable pub sum_wide : Bool → ℕ → List (BotType × ℕ) → Option ℕ
unfolding checked
sum_wide checks acc [] = some acc
sum_wide checks acc ((b, r) ∷ es) =
    checked checks (2 ^ 64) (acc + r) >>= λ acc'. sum_wide checks acc' es

-- The loop over the result; the entry of the specification at the same index is the head of `es`.
unfoldable pub at_floor : Bool → ℕ → ℕ → List (BotType × ℕ) → List (BotType × ℕ) → Bool
unfolding floor_share
at_floor checks total ratio_sum es [] = true
at_floor checks total ratio_sum [] (c ∷ result) = false
at_floor checks total ratio_sum ((b, ratio) ∷ es) ((bt, count) ∷ result) =
    elim (floor_share checks total ratio_sum ratio) [
      | none ↦ false
      | some floor_val ↦ leb floor_val count && at_floor checks total ratio_sum es result
    ]

unfoldable pub prop_proportional_allocation : Bool → ℕ → RatioSpec → Bool
unfolding allocate sum_wide at_floor
prop_proportional_allocation checks total spec = elim (allocate checks total spec) [
  | none ↦ false
  | some result ↦ elim (sum_wide checks 0 spec.entries) [
    | none ↦ false
    | some ratio_sum ↦ at_floor checks total ratio_sum spec.entries result
  ]
]

-- An element of `remainders`; the type of the bot is used in messages only.
pub record Remainder : Type 0 where
  pub extra : ℕ
  pub ratio : ℕ

-- `count - floor_val` is out of the range of `usize` where the count is smaller.
unfoldable pub extra_of : Bool → ℕ → ℕ → Option ℕ
extra_of checks count floor_val =
    if leb floor_val count
    then some (count - floor_val)
    else if checks
    then none
    else some (2 ^ 64 + count - floor_val)

unfoldable pub remainders :
    Bool → ℕ → ℕ → List (BotType × ℕ) → List (BotType × ℕ) → Option (List Remainder)
unfolding floor_share extra_of
remainders checks total ratio_sum es [] = some []
remainders checks total ratio_sum [] (c ∷ result) = none
remainders checks total ratio_sum ((b, ratio) ∷ es) ((bt, count) ∷ result) =
    floor_share checks total ratio_sum ratio >>= λ floor_val.
    extra_of checks count floor_val >>= λ extra.
    remainders checks total ratio_sum es result >>= λ rest.
    some (record { extra = extra; ratio = ratio } ∷ rest)

-- The inner and the outer loop.
unfoldable pub no_less : Remainder → List Remainder → Bool
no_less got [] = true
no_less got (not_got ∷ rs) =
    (if not_got.extra == 0 then leb not_got.ratio got.ratio else true) && no_less got rs

unfoldable pub in_order : List Remainder → List Remainder → Bool
unfolding no_less
in_order all [] = true
in_order all (got ∷ rs) = (if ltb 0 got.extra then no_less got all else true) && in_order all rs

unfoldable pub prop_remainder_allocation_order : Bool → ℕ → RatioSpec → Bool
unfolding allocate sum_wide remainders in_order
prop_remainder_allocation_order checks total spec = elim (allocate checks total spec) [
  | none ↦ false
  | some result ↦ elim (sum_wide checks 0 spec.entries) [
    | none ↦ false
    | some ratio_sum ↦ elim (remainders checks total ratio_sum spec.entries result) [
      | none ↦ false
      | some rs ↦ in_order rs rs
    ]
  ]
]
