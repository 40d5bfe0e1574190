-- ===== src/Bot/Tally/Count.antt =====
-- `tally_votes` counts the bots' last votes, and agrees with the server's board.
use rust_multichat_server.Base.{
  ℕ, zero, suc, ◌+◌, ◌%◌, ◌^◌, ◌<◌, ◌≡◌, ◌∙◌, Option, none, some, List, [], ◌∷◌, holds, count_by,
  length, from_fn, arith,
}
use rust_multichat_server.Protocol.{n_options}
use rust_multichat_server.Bot.Tally.{tally_loop, tally_votes}

-- How many of the votes are for option `i`.
abbrev pub votes_of : List (Option ℕ) → ℕ → ℕ
votes_of votes i = count_by (λ v. holds v i) votes

-- The counts `a b c d` after the votes.
tally_loop-votes_of :
    (votes : List (Option ℕ)) (a b c d : ℕ)
    → a + length votes < 2 ^ 64
    → b + length votes < 2 ^ 64
    → c + length votes < 2 ^ 64
    → d + length votes < 2 ^ 64
    → tally_loop (a ∷ b ∷ c ∷ d ∷ []) votes
      ≡ (a + votes_of votes 0)
        ∷ (b + votes_of votes 1)
        ∷ (c + votes_of votes 2)
        ∷ (d + votes_of votes 3)
        ∷ []
unfolding tally_loop
tally_loop-votes_of [] a b c d ha hb hc hd = ground arith
tally_loop-votes_of (none ∷ votes) a b c d ha hb hc hd =
    ground (arith, tally_loop-votes_of votes a b c d)
tally_loop-votes_of (some zero ∷ votes) a b c d ha hb hc hd =
    let e : (a + 1) % 2 ^ 64 ≡ a + 1 = omega arith in
    ground (arith, tally_loop-votes_of votes (a + 1) b c d)
tally_loop-votes_of (some (suc zero) ∷ votes) a b c d ha hb hc hd =
    ground (arith, tally_loop-votes_of votes a (b + 1) c d)
tally_loop-votes_of (some (suc (suc zero)) ∷ votes) a b c d ha hb hc hd =
    ground (arith, tally_loop-votes_of votes a b (c + 1) d)
tally_loop-votes_of (some (suc (suc (suc zero))) ∷ votes) a b c d ha hb hc hd =
    ground (arith, tally_loop-votes_of votes a b c (d + 1))
tally_loop-votes_of (some (suc (suc (suc (suc o)))) ∷ votes) a b c d ha hb hc hd =
    ground (arith, tally_loop-votes_of votes a b c d)

-- The tally of fewer than 2 ^ 64 votes gives for each option the number of votes for it; absent
-- votes and votes out of range count for none.
pub tally_votes-votes_of :
    (votes : List (Option ℕ))
    → length votes < 2 ^ 64
    → tally_votes votes ≡ from_fn n_options (votes_of votes)
unfolding tally_votes
tally_votes-votes_of votes h =
    tally_loop-votes_of votes 0 0 0 0 (omega arith) (omega arith) (omega arith) (omega arith)
    ∙ ground arith
