-- ===== src/Bot/Tally/Integrity.antt =====
-- The vote integrity check against the vote board itself.
use rust_multichat_server.Base.{
  ℕ, suc, ◌^◌, ◌≤◌, ◌<◌, ◌≡◌, ◌↔◌, refl, sym, ap, ◌∙◌, fun_ext, some, List, [], ◌∷◌, length, arith,
  true, false, map, from_fn,
}
use rust_multichat_server.Protocol.{n_options}
use rust_multichat_server.Vote.{snapshot}
use rust_multichat_server.Vote.Counting.{Voter, chosen, after, in_flight}
use rust_multichat_server.Vote.Race.{State, Reach}
use rust_multichat_server.Vote.Snapshot.{max_voters, snapshot_at_rest}
use rust_multichat_server.Bot.Tally.{
  FickleResult, array_eq, tally_votes, check_vote_integrity, vote_integrity,
}
use rust_multichat_server.Bot.Tally.Count.{votes_of, tally_votes-votes_of}
use rust_multichat_server.Bot.Tally.Entries.{array_eq_sound, array_eq_refl, seen_by}
use rust_multichat_server.Bot.Tally.Majority.{Iterates, pick_majority}

chosen-votes_of : (vs : List Voter) (i : ℕ) → chosen after vs i ≡ votes_of (map after vs) i
chosen-votes_of [] i = refl
chosen-votes_of (v ∷ vs) i = omega (arith, chosen-votes_of vs i)

length-map {ℓ κ} :
    {A : Type ℓ} {B : Type κ} (f : A → B) (xs : List A) → length (map f xs) ≡ length xs
length-map f [] = refl
length-map f (x ∷ xs) = ap suc (length-map f xs)

-- Once no client is in the middle of a vote, and however their operations were interleaved before,
-- the server's snapshot is the tally of the clients' last votes, option by option.
pub snapshot-tally_votes :
    {s : State}
    → Reach s
    → length s.voters ≤ max_voters
    → in_flight s.voters ≡ 0
    → snapshot s.board ≡ tally_votes (map after s.voters)
snapshot-tally_votes {s} r few rest =
    snapshot_at_rest r few rest
    ∙ ap (from_fn n_options) (fun_ext (chosen-votes_of s.voters))
    ∙ sym (tally_votes-votes_of (map after s.voters) (omega (arith, length-map after s.voters)))

-- The check passes if the last votes of the bots are the votes on the board at rest and more of
-- the bots, one at least, saw the board's snapshot last than any other, whatever the order in
-- which the map of snapshots is iterated.
pub vote_integrity_passes :
    {s : State} (order : List (List ℕ × ℕ) → List (List ℕ × ℕ)) (r : FickleResult)
    (rs : List FickleResult)
    → Reach s
    → length s.voters ≤ max_voters
    → in_flight s.voters ≡ 0
    → map (λ (r : FickleResult). r.last_vote) (r ∷ rs) ≡ map after s.voters
    → Iterates order
    → 0 < seen_by (snapshot s.board) (r ∷ rs)
    → ((o : List ℕ)
        → array_eq o (snapshot s.board) ≡ false
        → seen_by o (r ∷ rs) < seen_by (snapshot s.board) (r ∷ rs))
    → vote_integrity order (r ∷ rs)
      ≡ some (record {
        passed = true;
        expected = snapshot s.board;
        actual = snapshot s.board;
        fickle_count = length (r ∷ rs);
      })
unfolding vote_integrity
vote_integrity_passes {s} order r rs reach few rest votes iterates some_saw most =
    let n : length (r ∷ rs) < 2 ^ 64 = omega (
      arith,
      few,
      ap length votes,
      length-map after s.voters,
      length-map (λ (r : FickleResult). r.last_vote) (r ∷ rs),
    ) in
    let expected : tally_votes (map (λ (r : FickleResult). r.last_vote) (r ∷ rs))
        ≡ snapshot s.board =
      ap tally_votes votes ∙ sym (snapshot-tally_votes reach few rest) in
    let actual = pick_majority order (r ∷ rs) (snapshot s.board) iterates n some_saw most in
    rw (expected, actual, array_eq_refl (snapshot s.board))

-- The check passes exactly when the expected and the actual counts are the same arrays.
pub check_passed_iff :
    (expected actual : List ℕ) (n : ℕ)
    → ((check_vote_integrity expected actual n).passed ≡ true) ↔ (expected ≡ actual)
unfolding check_vote_integrity
check_passed_iff expected actual n =
    (array_eq_sound expected actual, λ e. rw e (array_eq_refl actual))
