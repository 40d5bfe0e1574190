-- ===== src/Vote/Race.antt =====
-- The vote board under any interleaving: each client's `fetch_add` is a step of its own.
use rust_multichat_server.Base.{
  ℕ, ◌+◌, ◌%◌, ◌^◌, ◌<◌, ◌≡◌, refl, Option, none, some, List, [], ◌∷◌, arith, holds, indicator,
  ◌==◌, ap, ◌∙◌, get_elem?, set,
}
use rust_multichat_server.Protocol.{n_options}
use rust_multichat_server.Vote.{VoteBoard, new, vote_next, vote_prev, unvote}
use rust_multichat_server.Vote.Counting.{
  Voter, idle, added, votes_for, erase_at, votes_for-set, votes_for-erase_at,
}

pub record State : Type 0 where
  pub board : VoteBoard
  pub voters : List Voter

pub data Step (s : State) : State → Type 0 where
  enter : Step s (record s { voters = idle none ∷ s.voters })
  begin :
      (j next : ℕ) {cv : Option ℕ}
      → get_elem? s.voters j ≡ some (idle cv)
      → Step s (record { board = vote_next next s.board; voters = set s.voters j (added cv next) })
  finish :
      (j : ℕ) {prev : Option ℕ} {next : ℕ}
      → get_elem? s.voters j ≡ some (added prev next)
      → Step s
          (record { board = vote_prev prev s.board; voters = set s.voters j (idle (some next)) })
  retract :
      (j : ℕ) {p : ℕ}
      → get_elem? s.voters j ≡ some (idle (some p))
      → Step s (record { board = unvote p s.board; voters = set s.voters j (idle none) })
  leave :
      (j : ℕ)
      → get_elem? s.voters j ≡ some (idle none)
      → Step s (record s { voters = erase_at s.voters j })

pub data Reach : State → Type 0 where
  start : Reach (record { board = new; voters = [] })
  later : {s t : State} → Reach s → Step s t → Reach t

-- Each counter is the number of votes that the clients account for, wrapped to 64 bits.
abbrev pub Counts : State → Type 0
Counts s = (i : ℕ) → i < n_options → s.board.counts i ≡ votes_for s.voters i % 2 ^ 64

counts-vote_next :
    (next i n : ℕ) (b : VoteBoard)
    → i < n_options
    → b.counts i ≡ n % 2 ^ 64
    → (vote_next next b).counts i ≡ (indicator (next == i) + n) % 2 ^ 64
unfolding vote_next
counts-vote_next next i n b h e = ground arith

counts-vote_prev :
    (prev : Option ℕ) (i m n : ℕ) (b : VoteBoard)
    → i < n_options
    → b.counts i ≡ n % 2 ^ 64
    → m + indicator (holds prev i) ≡ n
    → (vote_prev prev b).counts i ≡ m % 2 ^ 64
unfolding vote_prev
counts-vote_prev none i m n b h e k = ground arith
counts-vote_prev (some p) i m n b h e k = ground arith

counts-unvote :
    (p i m n : ℕ) (b : VoteBoard)
    → i < n_options
    → b.counts i ≡ n % 2 ^ 64
    → m + indicator (p == i) ≡ n
    → (unvote p b).counts i ≡ m % 2 ^ 64
unfolding unvote
counts-unvote p i m n b h e k = ground arith

Step-Counts : {s t : State} → Step s t → Counts s → Counts t
Step-Counts enter c i h = c i h ∙ ap (λ n. n % 2 ^ 64) (omega arith)
Step-Counts {s} (begin j next {cv} e) c i h =
    counts-vote_next next i (votes_for s.voters i) s.board h (c i h)
    ∙ ap (λ n. n % 2 ^ 64) (omega (arith, votes_for-set s.voters j (idle cv) (added cv next) i e))
Step-Counts {s} (finish j {prev} {next} e) c i h =
    counts-vote_prev prev i _ (votes_for s.voters i) s.board h (c i h)
      (omega (arith, votes_for-set s.voters j (added prev next) (idle (some next)) i e))
Step-Counts {s} (retract j {p} e) c i h =
    counts-unvote p i _ (votes_for s.voters i) s.board h (c i h)
      (omega (arith, votes_for-set s.voters j (idle (some p)) (idle none) i e))
Step-Counts {s} (leave j e) c i h =
    c i h ∙ ap (λ n. n % 2 ^ 64) (omega (arith, votes_for-erase_at s.voters j (idle none) i e))

-- The counters hold the votes of the clients after any interleaving.
pub Reach-Counts : {s : State} → Reach s → Counts s
unfolding new
Reach-Counts start i h = refl
Reach-Counts (later r st) i h = Step-Counts st (Reach-Counts r) i h
