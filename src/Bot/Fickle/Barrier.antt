-- ===== src/Bot/Fickle/Barrier.antt =====
-- The barrier at which the fickle bots of a scenario wait for each other: which of them come to it.
-- When tokio's `Barrier` opens is an argument.
use rust_multichat_server.Base.{
  ℕ, zero, suc, ◌+◌, ◌<◌, ◌≡◌, refl, Bool, true, false, ◌&&◌, Option, none, some, List, [], ◌∷◌,
  ◌⊎◌, codes, length, count_by, count_by-le-length, get_elem?, Bool-cases, inl, inr, arith,
}
use rust_multichat_server.Strings.{text_eq}
use rust_multichat_server.Bot.Scenario.{single_barrier}
use rust_multichat_server.Bot.Fickle.{vote_rounds}

-- What decides whether a fickle bot comes to the barrier: whether it connects, the options that it
-- draws, and which of its sends come through.
pub record Bot : Type 0 where
  pub connects : Bool
  pub gen_range : ℕ → ℕ
  pub sends : ℕ → Bool

unfoldable pub came_through : {A : Type 0} → Option A → Bool
came_through none = false
came_through (some a) = true

unfoldable pub reaches_barrier : ℕ → Bot → Bool
unfolding came_through
reaches_barrier vote_count b =
    b.connects && came_through (vote_rounds b.gen_range b.sends 0 vote_count none).1

-- One send that fails keeps the votes from coming through.
vote_rounds-sends :
    (gen_range : ℕ → ℕ) (sends : ℕ → Bool) (seq left k n : ℕ) (cv : Option ℕ)
    → k < left
    → n ≡ seq + k
    → sends n ≡ false
    → (vote_rounds gen_range sends seq left cv).1 ≡ none
unfolding vote_rounds
vote_rounds-sends gen_range sends seq zero k n cv h at_n e = absurd (omega arith)
vote_rounds-sends gen_range sends seq (suc left) zero n cv h at_n e =
    let here : n ≡ seq = omega arith in
    let failed : sends seq ≡ false = rw here at e in rw failed refl
vote_rounds-sends gen_range sends seq (suc left) (suc k) n cv h at_n e =
    let ih =
      vote_rounds-sends gen_range sends (suc seq) left k n (some (gen_range seq)) (omega arith)
        (omega arith) e in
    elim (Bool-cases (sends seq)) [ inl sent ↦ rw sent ih | inr failed ↦ rw failed refl ]

missing_one :
    {A : Type 0} (p : A → Bool) (xs : List A) (j : ℕ) (x : A)
    → get_elem? xs j ≡ some x
    → p x ≡ false
    → count_by p xs < length xs
missing_one p [] j x e f = absurd (cc)
missing_one p (y ∷ xs) zero x e f = ground (arith, count_by-le-length p xs)
missing_one p (y ∷ xs) (suc j) x e f = ground (arith, missing_one p xs j x e f)

kept_away :
    (vote_count : ℕ) (b : Bot)
    → (b.connects ≡ false) ⊎ ((k : ℕ) × (k < vote_count) × (b.sends k ≡ false))
    → reaches_barrier vote_count b ≡ false
unfolding reaches_barrier came_through
kept_away vote_count b (inl refused) = rw refused refl
kept_away vote_count b (inr (k, h, failed)) =
    let lost = vote_rounds-sends b.gen_range b.sends 0 vote_count k k none h (omega arith) failed in
    elim (Bool-cases b.connects) [ inl c ↦ rw (c, lost) refl | inr c ↦ rw c refl ]

-- In the fickle mode, where the barrier is as large as the number of bots: if one of the bots does
-- not connect, or one of its votes cannot be sent, the barrier does not open for the bots that come
-- to it. The barrier is taken to stay closed while fewer tasks wait than its size says.
pub barrier_stuck :
    (opens : ℕ → ℕ → Bool) (vote_count : ℕ) (bots : List Bot) (j : ℕ) (b : Bot)
    → ((size waiting : ℕ) → waiting < size → opens size waiting ≡ false)
    → get_elem? bots j ≡ some b
    → (b.connects ≡ false) ⊎ ((k : ℕ) × (k < vote_count) × (b.sends k ≡ false))
    → opens
        (single_barrier (codes "fickle") (length bots))
        (count_by (reaches_barrier vote_count) bots)
      ≡ false
unfolding single_barrier text_eq
barrier_stuck opens vote_count bots j b closed e away = closed _ _ (
    omega
      (arith, missing_one (reaches_barrier vote_count) bots j b e (kept_away vote_count b away)))
