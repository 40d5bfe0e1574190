-- ===== src/Bot/Allocate/Total.antt =====
-- The bots that `allocate` gives out add up to the number that was asked for.
use Prim.Native.Nat.add
use native.Mathlib.Nat.{mod-lt}
use rust_multichat_server.Base.{
  ℕ, zero, suc, ◌+◌, ◌-◌, ◌*◌, ◌%◌, ◌^◌, ◌≤◌, ◌<◌, ◌≡◌, refl, ap, ◌∙◌, Bool, some, List, [], ◌∷◌,
  map, length, arith, sum, get_or,
}
use rust_multichat_server.Bot.Kind.{BotType}
use rust_multichat_server.Bot.Allocate.{
  Share, indices_from, insert_sorted, sort_indices, add_one, distribute, allocate_shares, allocate,
}
use rust_multichat_server.Bot.Allocate.Shares.{
  ratio_total, allocated_total, floors, sum_ratios-ratio_total, floor_shares-floors,
  sum_allocated-total, length-floors, floors-total,
}

-- Every index is one of a list of length `n`.
abbrev InRange : ℕ → List ℕ → Type 0
InRange n [] = Unit
InRange n (i ∷ is) = (i < n) × InRange n is

indices_from-InRange : (i k n : ℕ) → i + k ≤ n → InRange n (indices_from i k)
unfolding indices_from
indices_from-InRange i zero n h = tt
indices_from-InRange i (suc k) n h = (omega arith, indices_from-InRange (suc i) k n (omega arith))

pub length-indices_from : (i k : ℕ) → length (indices_from i k) ≡ k
unfolding indices_from
length-indices_from i zero = refl
length-indices_from i (suc k) = ap suc (length-indices_from (suc i) k)

insert_sorted-InRange :
    (shares : List Share) (i n : ℕ) (is : List ℕ)
    → i < n
    → InRange n is
    → InRange n (insert_sorted shares i is)
unfolding insert_sorted
insert_sorted-InRange shares i n [] h a = (h, tt)
insert_sorted-InRange shares i n (j ∷ is) h a =
    ground (arith, insert_sorted-InRange shares i n is h a.1)

pub length-insert_sorted :
    (shares : List Share) (i : ℕ) (is : List ℕ)
    → length (insert_sorted shares i is) ≡ suc (length is)
unfolding insert_sorted
length-insert_sorted shares i [] = refl
length-insert_sorted shares i (j ∷ is) = ground (arith, length-insert_sorted shares i is)

sort_indices-InRange :
    (shares : List Share) (n : ℕ) (is : List ℕ) → InRange n is → InRange n (sort_indices shares is)
unfolding sort_indices
sort_indices-InRange shares n [] a = tt
sort_indices-InRange shares n (i ∷ is) a =
    insert_sorted-InRange shares i n _ a.0 (sort_indices-InRange shares n is a.1)

pub length-sort_indices :
    (shares : List Share) (is : List ℕ) → length (sort_indices shares is) ≡ length is
unfolding sort_indices
length-sort_indices shares [] = refl
length-sort_indices shares (i ∷ is) =
    length-insert_sorted shares i (sort_indices shares is) ∙ ap suc (length-sort_indices shares is)

get_or-InRange : (n i : ℕ) (is : List ℕ) → i < length is → InRange n is → get_or is i 0 < n
get_or-InRange n i [] h a = absurd (omega arith)
get_or-InRange n zero (j ∷ is) h a = a.0
get_or-InRange n (suc i) (j ∷ is) h a = get_or-InRange n i is (omega arith) a.1

add_one-total :
    (ss : List Share) (i : ℕ)
    → i < length ss
    → (allocated_total (add_one ss i) ≡ allocated_total ss + 1)
      × (length (add_one ss i) ≡ length ss)
unfolding add_one
add_one-total [] i h = absurd (omega arith)
add_one-total (s ∷ ss) zero h = omega arith
add_one-total (s ∷ ss) (suc i) h = omega (arith, add_one-total ss i (omega arith))

-- Each round gives out one bot.
distribute-total :
    (remainder : ℕ) (is : List ℕ) (idx : ℕ) (ss : List Share)
    → idx < length is
    → InRange (length ss) is
    → (allocated_total (distribute remainder is idx ss) ≡ allocated_total ss + remainder)
      × (length (distribute remainder is idx ss) ≡ length ss)
unfolding distribute
distribute-total zero is idx ss h a = omega arith
distribute-total (suc remainder) is idx ss h a =
    let (more, same) = add_one-total ss (get_or is idx 0) (get_or-InRange (length ss) idx is h a) in
    let next : (idx + 1) % length is < length is = mod-lt (idx + 1) (omega arith) in
    let ih =
      distribute-total remainder is ((idx + 1) % length is) (add_one ss (get_or is idx 0)) next
        (rw same a) in
    omega (arith, ih, more, same)

-- Where the sums stay within their types, `result` before and after the loop over the remainder.
abbrev pub spread : ℕ → List (BotType × ℕ) → List Share
spread total es =
    let ss = floors total (ratio_total es) es in
    distribute (total - allocated_total ss) (sort_indices ss (indices_from 0 (length ss))) 0 ss

spread-total :
    (total : ℕ) (es : List (BotType × ℕ))
    → 0 < ratio_total es
    → 0 < length es
    → (allocated_total (spread total es) ≡ total) × (length (spread total es) ≡ length es)
spread-total total es pos some_entry =
    let ss = floors total (ratio_total es) es in
    let (low, _) = floors-total total es pos in
    let n = length-floors total (ratio_total es) es in
    let is = sort_indices ss (indices_from 0 (length ss)) in
    let k : length is ≡ length ss =
      length-sort_indices ss (indices_from 0 (length ss)) ∙ length-indices_from 0 (length ss) in
    let range =
      sort_indices-InRange ss (length ss) _
        (indices_from-InRange 0 (length ss) (length ss) (omega arith)) in
    let d = distribute-total (total - allocated_total ss) is 0 ss (omega (arith, k, n)) range in
    omega (arith, d, low, n)

abbrev pub pair_of : Share → BotType × ℕ
pair_of s = (s.bot_type, s.allocated)

sum-map_pair :
    (ss : List Share)
    → (sum (map (λ (p : BotType × ℕ). p.1) (map pair_of ss)) ≡ allocated_total ss)
      × (length (map pair_of ss) ≡ length ss)
sum-map_pair [] = (refl, refl)
sum-map_pair (s ∷ ss) = omega (arith, sum-map_pair ss)

pub allocate_shares-spread :
    (checks : Bool) (total : ℕ) (es : List (BotType × ℕ))
    → 0 < ratio_total es
    → ratio_total es < 2 ^ 32
    → total * ratio_total es < 2 ^ 64
    → total < 2 ^ 64
    → allocate_shares checks total es ≡ some (spread total es)
unfolding allocate_shares
allocate_shares-spread checks total es pos small fits word =
    let (low, _) = floors-total total es pos in
    rw (
      sum_ratios-ratio_total checks 0 es (omega arith),
      add.zero (ratio_total es),
      floor_shares-floors checks total (ratio_total es) (ratio_total es) es pos (omega arith) fits,
      sum_allocated-total checks 0 (floors total (ratio_total es) es) (omega (arith, low)),
      add.zero (allocated_total (floors total (ratio_total es) es)),
    )

pub word_of : (t s : ℕ) → 0 < s → t * s < 2 ^ 64 → t < 2 ^ 64
word_of t s p h = grind arith

-- With one or more entries, a positive sum of ratios that is a `u32`, and a product of it with the
-- number of bots that is a `u64`, `allocate` does not panic in either build profile; it gives one
-- count for each entry, and the counts add up to the number of bots that was asked for.
pub allocate-total :
    (checks : Bool) (total : ℕ) (e : BotType × ℕ) (es : List (BotType × ℕ))
    → 0 < ratio_total (e ∷ es)
    → ratio_total (e ∷ es) < 2 ^ 32
    → total * ratio_total (e ∷ es) < 2 ^ 64
    → (result : List (BotType × ℕ)) × (allocate checks total (record { entries = e ∷ es })
        ≡ some result)
      × (sum (map (λ (p : BotType × ℕ). p.1) result) ≡ total)
      × (length result ≡ length (e ∷ es))
unfolding allocate
allocate-total checks total e es pos small fits =
    let word : total < 2 ^ 64 = word_of total _ pos fits in
    let shares = allocate_shares-spread checks total (e ∷ es) pos small fits word in
    let (all, n) = spread-total total (e ∷ es) pos (omega arith) in
    let (s, k) = sum-map_pair (spread total (e ∷ es)) in
    (map pair_of (spread total (e ∷ es)), rw shares, s ∙ all, k ∙ n)
