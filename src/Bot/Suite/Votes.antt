-- ===== src/Bot/Suite/Votes.antt =====
-- The unit tests of the vote integrity check in src/bot/mod.rs, and their runs.
use rust_multichat_server.Base.{◌≡◌, refl, Bool, true, ◌&&◌, not, none, some, [], ◌∷◌, ◌==◌}
use rust_multichat_server.Bot.Tally.{tally_votes, check_vote_integrity}
use rust_multichat_server.Bot.Suite.{numbers_eq}

unfoldable pub tally_votes_basic : Bool
unfolding tally_votes numbers_eq
tally_votes_basic =
    numbers_eq (tally_votes (some 0 ∷ some 1 ∷ some 2 ∷ some 3 ∷ [])) (1 ∷ 1 ∷ 1 ∷ 1 ∷ [])

unfoldable pub tally_votes_multiple_same_option : Bool
unfolding tally_votes numbers_eq
tally_votes_multiple_same_option =
    let votes = some 0 ∷ some 0 ∷ some 1 ∷ some 2 ∷ some 2 ∷ some 2 ∷ [] in
    numbers_eq (tally_votes votes) (2 ∷ 1 ∷ 3 ∷ 0 ∷ [])

unfoldable pub tally_votes_empty_input : Bool
unfolding tally_votes numbers_eq
tally_votes_empty_input = numbers_eq (tally_votes []) (0 ∷ 0 ∷ 0 ∷ 0 ∷ [])

unfoldable pub tally_votes_none_excluded : Bool
unfolding tally_votes numbers_eq
tally_votes_none_excluded =
    numbers_eq (tally_votes (some 0 ∷ none ∷ some 1 ∷ none ∷ [])) (1 ∷ 1 ∷ 0 ∷ 0 ∷ [])

unfoldable pub tally_votes_out_of_range_excluded : Bool
unfolding tally_votes numbers_eq
tally_votes_out_of_range_excluded =
    numbers_eq (tally_votes (some 0 ∷ some 4 ∷ some 100 ∷ some 3 ∷ [])) (1 ∷ 0 ∷ 0 ∷ 1 ∷ [])

unfoldable pub tally_votes_all_none : Bool
unfolding tally_votes numbers_eq
tally_votes_all_none = numbers_eq (tally_votes (none ∷ none ∷ none ∷ [])) (0 ∷ 0 ∷ 0 ∷ 0 ∷ [])

unfoldable pub check_vote_integrity_pass : Bool
unfolding check_vote_integrity numbers_eq
check_vote_integrity_pass =
    let expected = 3 ∷ 2 ∷ 1 ∷ 4 ∷ [] in
    let actual = 3 ∷ 2 ∷ 1 ∷ 4 ∷ [] in
    let result = check_vote_integrity expected actual 10 in
    result.passed
    && numbers_eq result.expected expected
    && numbers_eq result.actual actual
    && result.fickle_count == 10

unfoldable pub check_vote_integrity_fail : Bool
unfolding check_vote_integrity numbers_eq
check_vote_integrity_fail =
    let expected = 3 ∷ 2 ∷ 1 ∷ 4 ∷ [] in
    let actual = 2 ∷ 2 ∷ 1 ∷ 4 ∷ [] in
    let result = check_vote_integrity expected actual 10 in
    not (result.passed)
    && numbers_eq result.expected expected
    && numbers_eq result.actual actual
    && result.fickle_count == 10

votes_tests_pass :
    (tally_votes_basic ≡ true)
    × (tally_votes_multiple_same_option ≡ true)
    × (tally_votes_empty_input ≡ true)
    × (tally_votes_none_excluded ≡ true)
    × (tally_votes_out_of_range_excluded ≡ true)
    × (tally_votes_all_none ≡ true)
    × (check_vote_integrity_pass ≡ true)
    × (check_vote_integrity_fail ≡ true)
unfolding tally_votes_basic tally_votes_multiple_same_option tally_votes_empty_input
    tally_votes_none_excluded tally_votes_out_of_range_excluded tally_votes_all_none
    check_vote_integrity_pass check_vote_integrity_fail
votes_tests_pass = (refl, refl, refl, refl, refl, refl, refl, refl)
