-- ===== src/Bot/Suite/AllocateProps/Loops.antt =====
-- What the loops of the property tests of `allocate` in src/bot/mod.rs see of a result.
use rust_multichat_server.Base.{
  checked-lt, ℕ, zero, suc, ◌+◌, ◌-◌, ◌*◌, ◌/◌, ◌^◌, ◌≤◌, ◌<◌, ◌≡◌, inl, inr, refl, ap, ◌∙◌, Bool,
  true, some, List, [], ◌∷◌, ltb, length, arith, Bool-cases,
}
use rust_multichat_server.Bot.Kind.{BotType}
use rust_multichat_server.Bot.Allocate.{floor_share}
use rust_multichat_server.Bot.Allocate.Shares.{ratio_total, floor_share-lt, ratio-le-total}
use rust_multichat_server.Bot.Allocate.Fair.{ratio_of}
use rust_multichat_server.Bot.Suite.AllocateProps.{
  sum_wide, at_floor, Remainder, extra_of, remainders, no_less, in_order,
}

pub sum_wide-ratio_total :
    (checks : Bool) (acc : ℕ) (es : List (BotType × ℕ))
    → acc + ratio_total es < 2 ^ 64
    → sum_wide checks acc es ≡ some (acc + ratio_total es)
unfolding sum_wide
sum_wide-ratio_total checks acc [] h = ap some (omega arith)
sum_wide-ratio_total checks acc ((b, r) ∷ es) h =
    rw (checked-lt checks (2 ^ 64) (acc + r) (omega arith))
      (sum_wide-ratio_total checks (acc + r) es (omega arith) ∙ ap some (omega arith))

abbrev pub extra_at : List Remainder → ℕ → ℕ
extra_at [] k = 0
extra_at (r ∷ rs) zero = r.extra
extra_at (r ∷ rs) (suc k) = extra_at rs k

abbrev pub kept_ratio : List Remainder → ℕ → ℕ
kept_ratio [] k = 0
kept_ratio (r ∷ rs) zero = r.ratio
kept_ratio (r ∷ rs) (suc k) = kept_ratio rs k

-- What the loops see of a result, where the sums stay within their types.
module _ (checks : Bool) (total s : ℕ) (pos : 0 < s) (fits : total * s < 2 ^ 64) where
  abbrev pub NoneBelow : List (BotType × ℕ) → List (BotType × ℕ) → Type 0
  NoneBelow es result = (k : ℕ) → k < length es → total * ratio_of es k / s ≤ ratio_of result k

  share : (r : ℕ) → r ≤ s → floor_share checks total s r ≡ some (total * r / s)
  share r h = floor_share-lt checks total s r pos (ratio-le-total total r s h fits)

  pub at_floor_lem :
      (es result : List (BotType × ℕ))
      → ratio_total es ≤ s
      → length result ≡ length es
      → NoneBelow es result
      → at_floor checks total s es result ≡ true
  unfolding at_floor
  at_floor_lem [] [] small same low = refl
  at_floor_lem [] (c ∷ result) small same low = absurd (omega arith)
  at_floor_lem (e ∷ es) [] small same low = absurd (omega arith)
  at_floor_lem ((b, r) ∷ es) ((bt, c) ∷ result) small same low =
      rw
        (
          at_floor,
          share r (omega arith),
          at_floor_lem es result (omega arith) (omega arith) (λ k h. low (suc k) (omega arith)),
        )
        (ground (arith, low 0 (omega arith)))

  abbrev pub Each : List (BotType × ℕ) → List (BotType × ℕ) → List Remainder → Type 0
  Each es result rs =
      (k : ℕ)
      → k < length es
      → (extra_at rs k + total * ratio_of es k / s ≡ ratio_of result k)
        × (kept_ratio rs k ≡ ratio_of es k)

  Each-cons :
      (e c : BotType × ℕ) (es result : List (BotType × ℕ)) (r : Remainder) (rs : List Remainder)
      → r.extra + total * e.1 / s ≡ c.1
      → r.ratio ≡ e.1
      → Each es result rs
      → Each (e ∷ es) (c ∷ result) (r ∷ rs)
  Each-cons e c es result r rs more same rest zero h = (more, same)
  Each-cons e c es result r rs more same rest (suc k) h = rest k (omega arith)

  -- The remainders of a result.
  pub record Found (es result : List (BotType × ℕ)) : Type 0 where
    pub rs : List Remainder
    pub computed : remainders checks total s es result ≡ some rs
    pub as_many : length rs ≡ length es
    pub each : Each es result rs

  pub found :
      (es result : List (BotType × ℕ))
      → ratio_total es ≤ s
      → length result ≡ length es
      → NoneBelow es result
      → Found es result
  unfolding remainders
  found [] [] small same low = record {
    rs = [];
    computed = refl;
    as_many = refl;
    each = λ k h. absurd (omega arith);
  }
  found [] (c ∷ result) small same low = absurd (omega arith)
  found (e ∷ es) [] small same low = absurd (omega arith)
  found ((b, r) ∷ es) ((bt, c) ∷ result) small same low =
      let rest = found es result (omega arith) (omega arith) (λ k h. low (suc k) (omega arith)) in
      let first = low 0 (omega arith) in
      let extra : extra_of checks c (total * r / s) ≡ some (c - total * r / s) =
        unfold extra_of in ground arith in
      record {
        rs = record { extra = c - total * r / s; ratio = r } ∷ rest.rs;
        computed = rw (share r (omega arith), extra, rest.computed) refl;
        as_many = ap suc rest.as_many;
        each = Each-cons (b, r) (bt, c) es result _ rest.rs (omega (arith, first)) refl rest.each;
      }

-- The loops over the remainders.
no_less_lem :
    (got : Remainder) (rs : List Remainder)
    → ((k : ℕ) → k < length rs → extra_at rs k ≡ 0 → kept_ratio rs k ≤ got.ratio)
    → no_less got rs ≡ true
unfolding no_less
no_less_lem got [] f = refl
no_less_lem got (r ∷ rs) f =
    rw (no_less_lem got rs (λ k h. f (suc k) (omega arith))) (ground (arith, f 0 (omega arith)))

pub in_order_lem :
    (all rs : List Remainder)
    → ((k : ℕ)
        → k < length rs
        → 0 < extra_at rs k
        → (m : ℕ) → m < length all
        → extra_at all m ≡ 0
        → kept_ratio all m ≤ kept_ratio rs k)
    → in_order all rs ≡ true
unfolding in_order
in_order_lem all [] f = refl
in_order_lem all (r ∷ rs) f =
    rw (in_order_lem all rs (λ k h. f (suc k) (omega arith))) (elim (Bool-cases (ltb 0 r.extra)) [
      | inl more ↦ rw (more, no_less_lem r all (f 0 (omega arith) (ground arith))) refl
      | inr less ↦ rw less refl
    ])
