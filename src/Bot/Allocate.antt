-- ===== src/Bot/Allocate.antt =====
-- `allocate` of src/bot/mod.rs: how many bots of each type. A panic is `none`; `checks` tells
-- whether the build checks arithmetic for overflow (the debug profile) or wraps (the release one).
pub mod Shares
pub mod Total
pub mod Order
pub mod Fair
use rust_multichat_server.Base.{
  checked, ℕ, zero, suc, ◌+◌, ◌-◌, ◌*◌, ◌/◌, ◌%◌, ◌^◌, ◌≡◌, refl, Bool, true, false, Option, none,
  some, List, [], ◌∷◌, map, if◌then◌else◌, ltb, leb, ◌==◌, get_or, length, ◌>>=◌,
}
use rust_multichat_server.Bot.Kind.{BotType, normal, spammer, fickle, ghost, quitter}
use rust_multichat_server.Bot.Ratio.{RatioSpec}

-- An element of `result`.
pub record Share : Type 0 where
  pub bot_type : BotType
  pub allocated : ℕ
  pub ratio : ℕ

-- `iter().sum::<u32>()` of the ratios.
unfoldable pub sum_ratios : Bool → ℕ → List (BotType × ℕ) → Option ℕ
unfolding checked
sum_ratios checks acc [] = some acc
sum_ratios checks acc ((b, r) ∷ es) =
    checked checks (2 ^ 32) (acc + r) >>= λ acc'. sum_ratios checks acc' es

-- `total as u64 * r as u64 / ratio_sum as u64`.
unfoldable pub floor_share : Bool → ℕ → ℕ → ℕ → Option ℕ
unfolding checked
floor_share checks total ratio_sum r = checked checks (2 ^ 64) (total * r) >>= λ product.
    (if ratio_sum == 0 then none else some (product / ratio_sum))

unfoldable pub floor_shares : Bool → ℕ → ℕ → List (BotType × ℕ) → Option (List Share)
unfolding floor_share
floor_shares checks total ratio_sum [] = some []
floor_shares checks total ratio_sum ((b, r) ∷ es) = floor_share checks total ratio_sum r >>= λ n.
    floor_shares checks total ratio_sum es >>= λ shares.
    some (record { bot_type = b; allocated = n; ratio = r } ∷ shares)

-- `iter().sum::<usize>()` of the allocations.
unfoldable pub sum_allocated : Bool → ℕ → List Share → Option ℕ
unfolding checked
sum_allocated checks acc [] = some acc
sum_allocated checks acc (s ∷ ss) =
    checked checks (2 ^ 64) (acc + s.allocated) >>= λ acc'. sum_allocated checks acc' ss

-- `(0..n).collect()`, from `i` on.
unfoldable pub indices_from : ℕ → ℕ → List ℕ
indices_from i zero = []
indices_from i (suc n) = i ∷ indices_from (suc i) n

unfoldable pub ratio_at : List Share → ℕ → ℕ
ratio_at [] i = 0
ratio_at (s ∷ ss) zero = s.ratio
ratio_at (s ∷ ss) (suc i) = ratio_at ss i

-- `sort_by` with the larger ratio first; it is stable.
unfoldable pub insert_sorted : List Share → ℕ → List ℕ → List ℕ
unfolding ratio_at
insert_sorted shares i [] = i ∷ []
insert_sorted shares i (j ∷ js) =
    if leb (ratio_at shares j) (ratio_at shares i)
    then i ∷ j ∷ js
    else j ∷ insert_sorted shares i js

unfoldable pub sort_indices : List Share → List ℕ → List ℕ
unfolding insert_sorted
sort_indices shares [] = []
sort_indices shares (i ∷ is) = insert_sorted shares i (sort_indices shares is)

-- `result[i].1 += 1`.
unfoldable pub add_one : List Share → ℕ → List Share
add_one [] i = []
add_one (s ∷ ss) zero = record s { allocated = s.allocated + 1 } ∷ ss
add_one (s ∷ ss) (suc i) = s ∷ add_one ss i

-- The loop over the remainder.
unfoldable pub distribute : ℕ → List ℕ → ℕ → List Share → List Share
unfolding add_one
distribute zero indices idx result = result
distribute (suc remainder) indices idx result =
    distribute remainder indices ((idx + 1) % length indices)
      (add_one result (get_or indices idx 0))

-- The shares before the last `map`.
unfoldable pub allocate_shares : Bool → ℕ → List (BotType × ℕ) → Option (List Share)
unfolding sum_ratios floor_shares sum_allocated indices_from sort_indices distribute
allocate_shares checks total entries = do
  ratio_sum ← sum_ratios checks 0 entries
  result ← floor_shares checks total ratio_sum entries
  allocated_sum ← sum_allocated checks 0 result
  some (
      distribute (total - allocated_sum) (sort_indices result (indices_from 0 (length result))) 0
        result)

unfoldable pub allocate : Bool → ℕ → RatioSpec → Option (List (BotType × ℕ))
unfolding allocate_shares
allocate checks total spec = elim spec.entries [
  | [] ↦ some []
  | e ∷ es ↦
      (allocate_shares checks total (e ∷ es) >>= λ result.
      some (map (λ (s : Share). (s.bot_type, s.allocated)) result))
]
