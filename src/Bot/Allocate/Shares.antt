-- ===== src/Bot/Allocate/Shares.antt =====
-- The shares by the ratios, before the remainder: when they are computed, and what they add up to.
use native.Mathlib.Nat.{div-add-mod', mod-lt}
use rust_multichat_server.Base.{
  checked-lt, ℕ, suc, ◌+◌, ◌*◌, ◌/◌, ◌^◌, ◌≤◌, ◌<◌, ◌≡◌, refl, ap, ◌∙◌, Bool, some, List, [], ◌∷◌,
  length, arith,
}
use rust_multichat_server.Bot.Kind.{BotType}
use rust_multichat_server.Bot.Allocate.{Share, sum_ratios, floor_share, floor_shares, sum_allocated}

abbrev pub ratio_total : List (BotType × ℕ) → ℕ
ratio_total [] = 0
ratio_total ((b, r) ∷ es) = r + ratio_total es

abbrev pub allocated_total : List Share → ℕ
allocated_total [] = 0
allocated_total (s ∷ ss) = s.allocated + allocated_total ss

-- The shares rounded down.
abbrev pub floors : ℕ → ℕ → List (BotType × ℕ) → List Share
floors total ratio_sum [] = []
floors total ratio_sum ((b, r) ∷ es) =
    record { bot_type = b; allocated = total * r / ratio_sum; ratio = r }
    ∷ floors total ratio_sum es

pub sum_ratios-ratio_total :
    (checks : Bool) (acc : ℕ) (es : List (BotType × ℕ))
    → acc + ratio_total es < 2 ^ 32
    → sum_ratios checks acc es ≡ some (acc + ratio_total es)
unfolding sum_ratios
sum_ratios-ratio_total checks acc [] h = ap some (omega arith)
sum_ratios-ratio_total checks acc ((b, r) ∷ es) h =
    rw (checked-lt checks (2 ^ 32) (acc + r) (omega arith))
      (sum_ratios-ratio_total checks (acc + r) es (omega arith) ∙ ap some (omega arith))

pub ratio-le-total : (total r s : ℕ) → r ≤ s → total * s < 2 ^ 64 → total * r < 2 ^ 64
ratio-le-total total r s h k = grind arith

pub floor_share-lt :
    (checks : Bool) (total ratio_sum r : ℕ)
    → 0 < ratio_sum
    → total * r < 2 ^ 64
    → floor_share checks total ratio_sum r ≡ some (total * r / ratio_sum)
unfolding floor_share
floor_share-lt checks total ratio_sum r pos h =
    rw (checked-lt checks (2 ^ 64) (total * r) h) (ground arith)

pub floor_shares-floors :
    (checks : Bool) (total ratio_sum bound : ℕ) (es : List (BotType × ℕ))
    → 0 < ratio_sum
    → ratio_total es ≤ bound
    → total * bound < 2 ^ 64
    → floor_shares checks total ratio_sum es ≡ some (floors total ratio_sum es)
unfolding floor_shares
floor_shares-floors checks total ratio_sum bound [] pos h k = refl
floor_shares-floors checks total ratio_sum bound ((b, r) ∷ es) pos h k = rw (
  floor_share-lt checks total ratio_sum r pos (ratio-le-total total r bound (omega arith) k),
  floor_shares-floors checks total ratio_sum bound es pos (omega arith) k,
)

pub sum_allocated-total :
    (checks : Bool) (acc : ℕ) (ss : List Share)
    → acc + allocated_total ss < 2 ^ 64
    → sum_allocated checks acc ss ≡ some (acc + allocated_total ss)
unfolding sum_allocated
sum_allocated-total checks acc [] h = ap some (omega arith)
sum_allocated-total checks acc (s ∷ ss) h =
    rw (checked-lt checks (2 ^ 64) (acc + s.allocated) (omega arith))
      (sum_allocated-total checks (acc + s.allocated) ss (omega arith) ∙ ap some (omega arith))

-- The shares, rounded down, lose less than one bot for each type.
pub floors_bounds :
    (total ratio_sum : ℕ) (es : List (BotType × ℕ))
    → 0 < ratio_sum
    → (allocated_total (floors total ratio_sum es) * ratio_sum ≤ total * ratio_total es)
      × (total * ratio_total es + length es
          ≤ allocated_total (floors total ratio_sum es) * ratio_sum + length es * ratio_sum)
floors_bounds total ratio_sum [] pos = omega arith
floors_bounds total ratio_sum ((b, r) ∷ es) pos =
    let (low, high) = floors_bounds total ratio_sum es pos in
    omega (arith, div-add-mod' (total * r) ratio_sum, mod-lt (total * r) pos)

pub length-floors :
    (total ratio_sum : ℕ) (es : List (BotType × ℕ)) → length (floors total ratio_sum es) ≡ length es
length-floors total ratio_sum [] = refl
length-floors total ratio_sum ((b, r) ∷ es) = ap suc (length-floors total ratio_sum es)

-- With the true sum of the ratios, at most one bot for each type is left over.
pub floors-total :
    (total : ℕ) (es : List (BotType × ℕ))
    → 0 < ratio_total es
    → (allocated_total (floors total (ratio_total es) es) ≤ total)
      × (total ≤ allocated_total (floors total (ratio_total es) es) + length es)
floors-total total es pos =
    let (low, high) = floors_bounds total (ratio_total es) es pos in
    (
      cancel _ total (ratio_total es) pos low,
      cancel total _ (ratio_total es) pos (omega (arith, high)),
    )
  where
    cancel : (a b s : ℕ) → 0 < s → a * s ≤ b * s → a ≤ b
    cancel a b s pos h = grind arith
