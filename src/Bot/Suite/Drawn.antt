-- ===== src/Bot/Suite/Drawn.antt =====
-- The ratio specifications that the strategies draw: they have an entry, and small positive ratios.
use rust_multichat_server.Base.{ℕ, zero, suc, ◌≤◌, ◌<◌, ◌≡◌, refl, ap, List, [], ◌∷◌, take, arith}
use rust_multichat_server.Bot.Kind.{BotType, normal, fickle, spammer, ghost, quitter}
use rust_multichat_server.Bot.Ratio.RoundTrip.{IsValid}
use rust_multichat_server.Bot.Allocate.Shares.{ratio_total}
use rust_multichat_server.Bot.Suite.Strategies.{Ratios, IsDrawn, arb_ratio_entries}

pub record HasForm (drawn : List (BotType × ℕ)) : Type 0 where
  pub first : BotType × ℕ
  pub others : List (BotType × ℕ)
  pub whole : drawn ≡ first ∷ others
  pub valid : IsValid (first ∷ others)
  pub positive : 0 < ratio_total (first ∷ others)
  pub small : ratio_total (first ∷ others) ≤ 500

IsValid-take : (n : ℕ) (es : List (BotType × ℕ)) → IsValid es → IsValid (take n es)
IsValid-take zero es v = tt
IsValid-take (suc n) [] v = tt
IsValid-take (suc n) ((b, r) ∷ es) v = (v.0, v.1, IsValid-take n es v.2)

ratio_total-take : (n : ℕ) (es : List (BotType × ℕ)) → ratio_total (take n es) ≤ ratio_total es
ratio_total-take zero es = omega arith
ratio_total-take (suc n) [] = omega arith
ratio_total-take (suc n) ((b, r) ∷ es) = omega (arith, ratio_total-take n es)

taken : (d : Ratios) (n : ℕ) → d.count ≡ n → IsDrawn d → HasForm (arb_ratio_entries d)
unfolding arb_ratio_entries
taken d zero e v = absurd (omega (arith, v.some_entries))
taken d (suc n) e v =
    let es : List (BotType × ℕ) =
      (spammer, d.r2) ∷ (fickle, d.r3) ∷ (ghost, d.r4) ∷ (quitter, d.r5) ∷ [] in
    record {
      first = (normal, d.r1);
      others = take n es;
      whole = ap (λ k. take k ((normal, d.r1) ∷ es)) e;
      valid = (
        omega (arith, v.one),
        omega (arith, v.one),
        IsValid-take n es (omega (arith, v.two, v.three, v.four, v.five)),
      );
      positive = omega (arith, v.one);
      small = omega (arith, v.one, v.two, v.three, v.four, v.five, ratio_total-take n es);
    }

pub arb_ratio_entries-HasForm : (d : Ratios) → IsDrawn d → HasForm (arb_ratio_entries d)
arb_ratio_entries-HasForm d v = taken d d.count refl v
