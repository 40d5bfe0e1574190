-- ===== src/Bot/Tally.antt =====
-- The vote integrity check of src/bot/mod.rs: what the bots expect, and what they saw.
pub mod Count
pub mod Entries
pub mod Majority
pub mod Integrity
use rust_multichat_server.Base.{
  ℕ, ◌+◌, ◌%◌, ◌^◌, Bool, true, false, ◌&&◌, Option, none, some, List, [], ◌∷◌, if◌then◌else◌, ltb,
  ◌==◌, get_or, set, sum, map, length, ◌≡◌, refl,
}
use rust_multichat_server.Protocol.{n_options}

pub record FickleResult : Type 0 where
  pub last_vote : Option ℕ
  pub last_snapshot : Option (List ℕ)

pub record VoteIntegrityResult : Type 0 where
  pub passed : Bool
  pub expected : List ℕ
  pub actual : List ℕ
  pub fickle_count : ℕ

-- `counts[opt] += 1`.
unfoldable pub bump : List ℕ → ℕ → List ℕ
bump counts opt = set counts opt ((get_or counts opt 0 + 1) % 2 ^ 64)

unfoldable pub tally_loop : List ℕ → List (Option ℕ) → List ℕ
unfolding bump
tally_loop counts [] = counts
tally_loop counts (none ∷ votes) = tally_loop counts votes
tally_loop counts (some opt ∷ votes) =
    tally_loop (if ltb opt n_options then bump counts opt else counts) votes

abbrev pub no_counts : List ℕ
no_counts = 0 ∷ 0 ∷ 0 ∷ 0 ∷ []

unfoldable pub tally_votes : List (Option ℕ) → List ℕ
unfolding tally_loop
tally_votes last_votes = tally_loop no_counts last_votes

-- Equality of arrays.
unfoldable pub array_eq : List ℕ → List ℕ → Bool
array_eq [] [] = true
array_eq [] (y ∷ ys) = false
array_eq (x ∷ xs) [] = false
array_eq (x ∷ xs) (y ∷ ys) = x == y && array_eq xs ys

-- `*tally.entry(s).or_insert(0) += 1`, on a hash map from arrays to numbers.
unfoldable pub add_entry : List ℕ → List (List ℕ × ℕ) → List (List ℕ × ℕ)
unfolding array_eq
add_entry s [] = (s, 1) ∷ []
add_entry s ((k, n) ∷ es) =
    if array_eq k s then (k, (n + 1) % 2 ^ 64) ∷ es else (k, n) ∷ add_entry s es

unfoldable pub add_snapshot : Option (List ℕ) → List (List ℕ × ℕ) → List (List ℕ × ℕ)
unfolding add_entry
add_snapshot none es = es
add_snapshot (some s) es = add_entry s es

unfoldable pub tally_snapshots : List (List ℕ × ℕ) → List FickleResult → List (List ℕ × ℕ)
unfolding add_snapshot
tally_snapshots es [] = es
tally_snapshots es (r ∷ rs) = tally_snapshots (add_snapshot r.last_snapshot es) rs

-- `iter().sum::<u64>()`.
unfoldable pub sum_u64 : List ℕ → ℕ
sum_u64 counts = sum counts % 2 ^ 64

-- Whether the comparison of `max_by` puts `a` above `b`.
unfoldable pub is_greater : List ℕ × ℕ → List ℕ × ℕ → Bool
unfolding sum_u64
is_greater (a, n) (b, m) = if n == m then ltb (sum_u64 b) (sum_u64 a) else ltb m n

-- `max_by`: of equal elements the last one.
unfoldable pub max_from : List ℕ × ℕ → List (List ℕ × ℕ) → List ℕ × ℕ
unfolding is_greater
max_from best [] = best
max_from best (e ∷ es) = max_from (if is_greater best e then best else e) es

unfoldable pub max_snapshot : List (List ℕ × ℕ) → List ℕ
unfolding max_from
max_snapshot [] = no_counts
max_snapshot (e ∷ es) = (max_from e es).0

-- `order` is the order in which the hash map is iterated.
unfoldable pub pick_actual_snapshot :
    (List (List ℕ × ℕ) → List (List ℕ × ℕ)) → List FickleResult → List ℕ
unfolding tally_snapshots max_snapshot
pick_actual_snapshot order results = max_snapshot (order (tally_snapshots [] results))

unfoldable pub check_vote_integrity : List ℕ → List ℕ → ℕ → VoteIntegrityResult
unfolding array_eq
check_vote_integrity expected actual fickle_count = record {
  passed = array_eq expected actual;
  expected = expected;
  actual = actual;
  fickle_count = fickle_count;
}

-- The check as both scenario runners make it.
unfoldable pub vote_integrity :
    (List (List ℕ × ℕ) → List (List ℕ × ℕ)) → List FickleResult → Option VoteIntegrityResult
unfolding tally_votes pick_actual_snapshot check_vote_integrity
vote_integrity order [] = none
vote_integrity order (r ∷ rs) = some (
    check_vote_integrity (tally_votes (map (λ r. r.last_vote) (r ∷ rs)))
      (pick_actual_snapshot order (r ∷ rs)) (length (r ∷ rs)))
