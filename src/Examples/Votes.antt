-- ===== src/Examples/Votes.antt =====
-- The vote board while a client is between its two atomic operations, and after it.
use rust_multichat_server.Base.{◌+◌, ◌≤◌, refl, none, some, [], ◌∷◌, get_or, arith}
use rust_multichat_server.Vote.{new, snapshot, vote_next, vote_prev}
use rust_multichat_server.Vote.Counting.{idle, added, before, after, chosen, in_flight}
use rust_multichat_server.Vote.Race.{State, Reach, start, later, enter, begin, finish}
use rust_multichat_server.Vote.Snapshot.{snapshot_overcounts}

-- One client that is about to vote for option 2, and one that has not voted.
abbrev pub voting : State
voting = record { board = vote_next 2 new; voters = added none 2 ∷ idle none ∷ [] }

voting-Reach : Reach voting
voting-Reach = later (later (later start enter) enter) (begin 0 2 refl)

abbrev pub voted : State
voted = record { board = vote_prev none (vote_next 2 new); voters = idle (some 2) ∷ idle none ∷ [] }

voted-Reach : Reach voted
voted-Reach = later voting-Reach (finish 0 refl)

snapshot_overcounts_example :
    (chosen before voting.voters 2 ≤ get_or (snapshot voting.board) 2 0)
    × (chosen after voting.voters 2 ≤ get_or (snapshot voting.board) 2 0)
    × (get_or (snapshot voting.board) 2 0 ≤ chosen after voting.voters 2 + in_flight voting.voters)
snapshot_overcounts_example = snapshot_overcounts voting-Reach (omega arith) 2 (omega arith)
