-- ===== src/Vote/Counting.antt =====
-- The clients of a vote board between two atomic operations, and how many votes they account for.
use rust_multichat_server.Base.{
  ℕ, zero, suc, ◌+◌, ◌≤◌, ◌≡◌, refl, Option, some, List, [], ◌∷◌, arith, holds, indicator, ◌==◌,
  length, get_elem?, set,
}

-- `idle cv`: outside `vote`, with `current_vote` equal to `cv`. `added prev next`: between the two
-- `fetch_add` calls of `vote(prev, next)`.
pub data Voter : Type 0 where
  idle : Option ℕ → Voter
  added : Option ℕ → ℕ → Voter

-- The votes that one client has on the board for option `i`.
abbrev pub weight : Voter → ℕ → ℕ
weight (idle cv) i = indicator (holds cv i)
weight (added prev next) i = indicator (next == i) + indicator (holds prev i)

-- What the client's vote was before the operation that it is in, and what it will be after.
abbrev pub before : Voter → Option ℕ
before (idle cv) = cv
before (added prev next) = prev

abbrev pub after : Voter → Option ℕ
after (idle cv) = cv
after (added prev next) = some next

abbrev pub votes_for : List Voter → ℕ → ℕ
votes_for [] i = 0
votes_for (v ∷ vs) i = weight v i + votes_for vs i

-- How many clients have chosen `i` when each is asked by `choice`.
abbrev pub chosen : (Voter → Option ℕ) → List Voter → ℕ → ℕ
chosen choice [] i = 0
chosen choice (v ∷ vs) i = indicator (holds (choice v) i) + chosen choice vs i

abbrev pub erase_at : List Voter → ℕ → List Voter
erase_at [] j = []
erase_at (v ∷ vs) zero = vs
erase_at (v ∷ vs) (suc j) = v ∷ erase_at vs j

pub votes_for-set :
    (vs : List Voter) (j : ℕ) (v w : Voter) (i : ℕ)
    → get_elem? vs j ≡ some v
    → votes_for (set vs j w) i + weight v i ≡ votes_for vs i + weight w i
votes_for-set [] j v w i h = ground arith
votes_for-set (x ∷ vs) zero v w i h = ground arith
votes_for-set (x ∷ vs) (suc j) v w i h = omega (arith, votes_for-set vs j v w i h)

pub votes_for-erase_at :
    (vs : List Voter) (j : ℕ) (v : Voter) (i : ℕ)
    → get_elem? vs j ≡ some v
    → votes_for (erase_at vs j) i + weight v i ≡ votes_for vs i
votes_for-erase_at [] j v i h = ground arith
votes_for-erase_at (x ∷ vs) zero v i h = ground arith
votes_for-erase_at (x ∷ vs) (suc j) v i h = omega (arith, votes_for-erase_at vs j v i h)

weight-le : (v : Voter) (i : ℕ) → weight v i ≤ 2
weight-le (idle cv) i = ground arith
weight-le (added prev next) i = ground arith

pub votes_for-le : (vs : List Voter) (i : ℕ) → votes_for vs i ≤ length vs + length vs
votes_for-le [] i = omega arith
votes_for-le (v ∷ vs) i = omega (arith, weight-le v i, votes_for-le vs i)

before-le-weight : (v : Voter) (i : ℕ) → indicator (holds (before v) i) ≤ weight v i
before-le-weight (idle cv) i = omega arith
before-le-weight (added prev next) i = omega arith

after-le-weight : (v : Voter) (i : ℕ) → indicator (holds (after v) i) ≤ weight v i
after-le-weight (idle cv) i = omega arith
after-le-weight (added prev next) i = omega arith

pub chosen-before-le : (vs : List Voter) (i : ℕ) → chosen before vs i ≤ votes_for vs i
chosen-before-le [] i = omega arith
chosen-before-le (v ∷ vs) i = omega (arith, before-le-weight v i, chosen-before-le vs i)

pub chosen-after-le : (vs : List Voter) (i : ℕ) → chosen after vs i ≤ votes_for vs i
chosen-after-le [] i = omega arith
chosen-after-le (v ∷ vs) i = omega (arith, after-le-weight v i, chosen-after-le vs i)

-- The clients between their two atomic operations.
abbrev pub in_flight : List Voter → ℕ
in_flight [] = 0
in_flight (idle cv ∷ vs) = in_flight vs
in_flight (added prev next ∷ vs) = suc (in_flight vs)

pub votes_for-le-after :
    (vs : List Voter) (i : ℕ) → votes_for vs i ≤ chosen after vs i + in_flight vs
votes_for-le-after [] i = omega arith
votes_for-le-after (idle cv ∷ vs) i = omega (arith, votes_for-le-after vs i)
votes_for-le-after (added prev next ∷ vs) i = ground (arith, votes_for-le-after vs i)

pub chosen-at_rest :
    (vs : List Voter) (i : ℕ) → in_flight vs ≡ 0 → votes_for vs i ≡ chosen after vs i
chosen-at_rest [] i h = refl
chosen-at_rest (idle cv ∷ vs) i h = omega (arith, chosen-at_rest vs i h)
chosen-at_rest (added prev next ∷ vs) i h = absurd (omega arith)
