-- ===== src/Bot/Suite/VotesProps.antt =====
-- The property tests of the vote integrity check in src/bot/mod.rs hold for every input.
use rust_multichat_server.Base.{
  ℕ, suc, ◌+◌, ◌^◌, ◌≤◌, ◌<◌, ◌≡◌, refl, ap, Bool, true, false, Option, none, some, List, [], ◌∷◌,
  ◌==◌, ==_refl, ltb, length, arith, if◌then◌else◌,
}
use rust_multichat_server.Protocol.{n_options}
use rust_multichat_server.Bot.Tally.{array_eq, sum_u64, tally_votes, check_vote_integrity}
use rust_multichat_server.Bot.Tally.Count.{votes_of, tally_votes-votes_of}
use rust_multichat_server.Bot.Suite.{numbers_eq, numbers_eq_refl}
use rust_multichat_server.Bot.Suite.Strategies.{Drawn, arb_vote_list}

-- `matches!(v, Some(opt) if *opt < N_OPTIONS)`.
unfoldable pub is_valid_vote : Option ℕ → Bool
is_valid_vote none = false
is_valid_vote (some opt) = ltb opt n_options

-- The number of votes that `filter` leaves.
unfoldable pub valid_count : List (Option ℕ) → ℕ
unfolding is_valid_vote
valid_count [] = 0
valid_count (v ∷ votes) = (if is_valid_vote v then 1 else 0) + valid_count votes

unfoldable pub prop_tally_votes_sum_invariant : List (Option ℕ) → Bool
unfolding tally_votes sum_u64 valid_count
prop_tally_votes_sum_invariant votes = sum_u64 (tally_votes votes) == valid_count votes

unfoldable pub bool_eq : Bool → Bool → Bool
bool_eq true true = true
bool_eq false false = true
bool_eq _ _ = false

unfoldable pub prop_check_vote_integrity_consistency : List ℕ → List ℕ → ℕ → Bool
unfolding check_vote_integrity array_eq bool_eq
prop_check_vote_integrity_consistency expected actual fickle_count =
    let result = check_vote_integrity expected actual fickle_count in
    let should_pass = array_eq expected actual in bool_eq result.passed should_pass

unfoldable pub prop_tally_votes_idempotent : List (Option ℕ) → Bool
unfolding tally_votes numbers_eq
prop_tally_votes_idempotent votes =
    let result1 = tally_votes votes in let result2 = tally_votes votes in numbers_eq result1 result2

votes_of-valid :
    (votes : List (Option ℕ))
    → votes_of votes 0 + (votes_of votes 1 + (votes_of votes 2 + votes_of votes 3))
      ≡ valid_count votes
unfolding valid_count is_valid_vote
votes_of-valid [] = refl
votes_of-valid (none ∷ votes) = ground (arith, votes_of-valid votes)
votes_of-valid (some o ∷ votes) = ground (arith, votes_of-valid votes)

valid_count-length : (votes : List (Option ℕ)) → valid_count votes ≤ length votes
unfolding valid_count
valid_count-length [] = omega arith
valid_count-length (v ∷ votes) = ground (arith, valid_count-length votes)

-- The counts of fewer than 2 ^ 64 votes add up to the number of votes for one of the options, and
-- that sum does not wrap.
pub tally_votes-valid_count :
    (votes : List (Option ℕ))
    → length votes < 2 ^ 64
    → sum_u64 (tally_votes votes) ≡ valid_count votes
unfolding sum_u64
tally_votes-valid_count votes h =
    rw (tally_votes-votes_of votes h)
      (omega (arith, votes_of-valid votes, valid_count-length votes))

length-map_votes : (ds : List Drawn) → length (arb_vote_list ds) ≡ length ds
unfolding arb_vote_list
length-map_votes [] = refl
length-map_votes (d ∷ ds) = ap suc (length-map_votes ds)

bool_eq_refl : (b : Bool) → bool_eq b b ≡ true
unfolding bool_eq
bool_eq_refl true = refl
bool_eq_refl false = refl

-- The property tests of the vote check pass: for fewer than 200 drawn votes, of any option, in
-- range or not, or of none, the counts add up to the number of valid votes and a second tally
-- gives the same; and a check of any two arrays passes if and only if they are equal.
pub votes_props_pass :
    (ds : List Drawn) (expected actual : List ℕ) (n : ℕ)
    → length ds < 200
    → (prop_tally_votes_sum_invariant (arb_vote_list ds) ≡ true)
      × (prop_check_vote_integrity_consistency expected actual n ≡ true)
      × (prop_tally_votes_idempotent (arb_vote_list ds) ≡ true)
unfolding prop_tally_votes_sum_invariant prop_tally_votes_idempotent
    prop_check_vote_integrity_consistency check_vote_integrity
votes_props_pass ds expected actual n few =
    let votes = arb_vote_list ds in
    let sum = tally_votes-valid_count votes (omega (arith, length-map_votes ds)) in
    (
      rw sum (==_refl (valid_count votes)),
      bool_eq_refl (array_eq expected actual),
      numbers_eq_refl (tally_votes votes),
    )
