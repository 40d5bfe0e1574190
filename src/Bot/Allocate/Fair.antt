-- ===== src/Bot/Allocate/Fair.antt =====
-- How `allocate` gives out the bots that the rounded shares leave over.
use native.Mathlib.Nat.{mod-eq_of_lt}
use rust_multichat_server.Base.{
  ℕ, zero, suc, ◌+◌, ◌-◌, ◌*◌, ◌/◌, ◌%◌, ◌^◌, ◌≤◌, ◌<◌, ◌≡◌, ◌⊎◌, refl, ap, ◌∙◌, Bool, some, List,
  [], ◌∷◌, map, length, take, drop, get_or, indicator, ◌==◌, arith,
}
use rust_multichat_server.Bot.Kind.{BotType}
use rust_multichat_server.Bot.Allocate.{
  Share, indices_from, ratio_at, sort_indices, add_one, distribute, allocate,
}
use rust_multichat_server.Bot.Allocate.Shares.{
  ratio_total, allocated_total, floors, length-floors, floors-total,
}
use rust_multichat_server.Bot.Allocate.Total.{
  length-sort_indices, length-indices_from, allocate_shares-spread, spread, pair_of, word_of,
}
use rust_multichat_server.Bot.Allocate.Order.{
  times, times-sort_indices, Ordered-sort_indices, times-take-Before, times-take-le,
}

abbrev share_at : List Share → ℕ → ℕ
share_at [] k = 0
share_at (s ∷ ss) zero = s.allocated
share_at (s ∷ ss) (suc k) = share_at ss k

share_at-add_one :
    (ss : List Share) (i k : ℕ)
    → k < length ss
    → share_at (add_one ss i) k ≡ share_at ss k + indicator (i == k)
unfolding add_one
share_at-add_one [] i k h = absurd (omega arith)
share_at-add_one (s ∷ ss) zero zero h = ground arith
share_at-add_one (s ∷ ss) zero (suc k) h = ground arith
share_at-add_one (s ∷ ss) (suc i) zero h = ground arith
share_at-add_one (s ∷ ss) (suc i) (suc k) h = ground (arith, share_at-add_one ss i k)

length-add_one : (ss : List Share) (i : ℕ) → length (add_one ss i) ≡ length ss
unfolding add_one
length-add_one [] i = refl
length-add_one (s ∷ ss) zero = refl
length-add_one (s ∷ ss) (suc i) = ap suc (length-add_one ss i)

drop-get_or :
    (is : List ℕ) (idx : ℕ) → idx < length is → drop idx is ≡ get_or is idx 0 ∷ drop (suc idx) is
drop-get_or [] idx h = absurd (omega arith)
drop-get_or (i ∷ is) zero h = refl
drop-get_or (i ∷ is) (suc idx) h = drop-get_or is idx (omega arith)

wrapped : (i n : ℕ) → i + 1 < n → (i + 1) % n ≡ suc i
wrapped i n h = mod-eq_of_lt h ∙ omega arith

-- Before the index comes round, each of the next entries in the order gains one bot.
distribute-share_at :
    (remainder : ℕ) (is : List ℕ) (idx k : ℕ) (ss : List Share)
    → idx + remainder ≤ length is
    → k < length ss
    → share_at (distribute remainder is idx ss) k
      ≡ share_at ss k + times k (take remainder (drop idx is))
unfolding distribute
distribute-share_at zero is idx k ss h l = omega arith
distribute-share_at (suc zero) is idx k ss h l =
    rw (drop-get_or is idx (omega arith)) (omega (arith, share_at-add_one ss (get_or is idx 0) k l))
distribute-share_at (suc (suc remainder)) is idx k ss h l =
    let next : (idx + 1) % length is ≡ suc idx = wrapped idx (length is) (omega arith) in
    let one = share_at-add_one ss (get_or is idx 0) k l in
    let rest =
      distribute-share_at (suc remainder) is (suc idx) k (add_one ss (get_or is idx 0))
        (omega arith) (omega (arith, length-add_one ss (get_or is idx 0))) in
    rw (drop-get_or is idx (omega arith), next) (omega (arith, one, rest))

abbrev pub ratio_of : List (BotType × ℕ) → ℕ → ℕ
ratio_of es k = get_or (map (λ (p : BotType × ℕ). p.1) es) k 0

floors_at :
    (total ratio_sum : ℕ) (es : List (BotType × ℕ)) (k : ℕ)
    → k < length es
    → (share_at (floors total ratio_sum es) k ≡ total * ratio_of es k / ratio_sum)
      × (ratio_at (floors total ratio_sum es) k ≡ ratio_of es k)
unfolding ratio_at
floors_at total ratio_sum [] k h = absurd (omega arith)
floors_at total ratio_sum ((b, r) ∷ es) zero h = (refl, refl)
floors_at total ratio_sum ((b, r) ∷ es) (suc k) h = floors_at total ratio_sum es k (omega arith)

got_pair : (ss : List Share) (k : ℕ) → ratio_of (map pair_of ss) k ≡ share_at ss k
got_pair [] k = refl
got_pair (s ∷ ss) zero = refl
got_pair (s ∷ ss) (suc k) = got_pair ss k

-- Entry `k` is served before entry `m`, or is `m`.
abbrev pub ServedBefore : List (BotType × ℕ) → ℕ → ℕ → Type 0
ServedBefore es k m = (ratio_of es m < ratio_of es k) ⊎ ((ratio_of es m ≡ ratio_of es k) × (k ≤ m))

abbrev pub floor_of : ℕ → List (BotType × ℕ) → ℕ → ℕ
floor_of total es k = total * ratio_of es k / ratio_total es

-- What the entries `k` and `m` get, next to their rounded shares.
abbrev Fairly : ℕ → List (BotType × ℕ) → ℕ → ℕ → List (BotType × ℕ) → Type 0
Fairly total es k m result =
    (floor_of total es k ≤ ratio_of result k)
    × (ratio_of result k ≤ floor_of total es k + 1)
    × (ratio_of result m + floor_of total es k ≤ ratio_of result k + floor_of total es m)

spread-Fairly :
    (total : ℕ) (es : List (BotType × ℕ)) (k m : ℕ)
    → 0 < ratio_total es
    → k < length es
    → m < length es
    → ServedBefore es k m
    → Fairly total es k m (map pair_of (spread total es))
spread-Fairly total es k m pos h l b =
    let ss = floors total (ratio_total es) es in
    let n = length-floors total (ratio_total es) es in
    let is = sort_indices ss (indices_from 0 (length ss)) in
    let rem = total - allocated_total ss in
    let len : length is ≡ length ss =
      length-sort_indices ss (indices_from 0 (length ss)) ∙ length-indices_from 0 (length ss) in
    let fits : 0 + rem ≤ length is = omega (arith, len, n, floors-total total es pos) in
    let (fk, rk) = floors_at total (ratio_total es) es k h in
    let (fm, rm) = floors_at total (ratio_total es) es m l in
    let gk = distribute-share_at rem is 0 k ss fits (omega (arith, n)) in
    let gm = distribute-share_at rem is 0 m ss fits (omega (arith, n)) in
    let one_k : times k is ≡ 1 = times-sort_indices ss k 0 (length ss) ∙ ground (arith, n) in
    let one_m : times m is ≡ 1 = times-sort_indices ss m 0 (length ss) ∙ ground (arith, n) in
    let first =
      times-take-Before ss k m rem is (ground (arith, rk, rm))
        (Ordered-sort_indices ss 0 (length ss)) (omega (arith, one_k)) (omega (arith, one_m)) in
    omega (
      arith,
      got_pair (spread total es) k,
      got_pair (spread total es) m,
      fk,
      fm,
      gk,
      gm,
      first,
      one_k,
      times-take-le k rem is,
    )

-- With one or more entries, a positive sum of ratios below 2 ^ 32, and a product of it with the
-- number of bots below 2 ^ 64, `allocate` gives each entry its share rounded down or one more, and
-- of any two entries the one with the larger ratio, or with the same ratio and the earlier place,
-- gets no fewer bots beyond its rounded share than the other.
pub allocate-fair :
    (checks : Bool) (total : ℕ) (e : BotType × ℕ) (es : List (BotType × ℕ)) (k m : ℕ)
    → 0 < ratio_total (e ∷ es)
    → ratio_total (e ∷ es) < 2 ^ 32
    → total * ratio_total (e ∷ es) < 2 ^ 64
    → k < length (e ∷ es)
    → m < length (e ∷ es)
    → ServedBefore (e ∷ es) k m
    → (result : List (BotType × ℕ)) × (allocate checks total (record { entries = e ∷ es })
        ≡ some result)
      × (floor_of total (e ∷ es) k ≤ ratio_of result k)
      × (ratio_of result k ≤ floor_of total (e ∷ es) k + 1)
      × (ratio_of result m + floor_of total (e ∷ es) k
          ≤ ratio_of result k + floor_of total (e ∷ es) m)
unfolding allocate
allocate-fair checks total e es k m pos small fits h l b =
    let shares =
      allocate_shares-spread checks total (e ∷ es) pos small fits (word_of total _ pos fits) in
    let (low, high, first) = spread-Fairly total (e ∷ es) k m pos h l b in
    (map pair_of (spread total (e ∷ es)), rw shares refl, low, high, first)
