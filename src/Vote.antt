-- ===== src/Vote.antt =====
-- src/vote.rs: the vote board. Its four `AtomicI64` counters are two's complement patterns of 64
-- bits, held in a function of the option; `fetch_add` wraps as the atomic does. Each function is
-- one uninterrupted run; `Vote/Race.antt` interleaves the two `fetch_add` calls of `vote`.
pub mod Counting
pub mod Race
pub mod Snapshot
use rust_multichat_server.Base.{
  ℕ, ◌+◌, ◌-◌, ◌%◌, ◌^◌, Option, none, some, List, update, ltb, if◌then◌else◌, from_fn, sum, get_or,
}
use rust_multichat_server.Protocol.{n_options, Floats}

pub record VoteBoard : Type 0 where
  pub counts : ℕ → ℕ

unfoldable pub new : VoteBoard
new = record { counts = λ _. 0 }

-- The patterns of 1 and -1.
abbrev pub plus_one : ℕ
plus_one = 1

abbrev pub minus_one : ℕ
minus_one = 2 ^ 64 - 1

unfoldable pub fetch_add : ℕ → ℕ → VoteBoard → VoteBoard
fetch_add i delta b = record { counts = update b.counts i ((b.counts i + delta) % 2 ^ 64) }

-- The first half of `vote`: the new option gains a vote.
unfoldable pub vote_next : ℕ → VoteBoard → VoteBoard
unfolding fetch_add
vote_next next b = if ltb next n_options then fetch_add next plus_one b else b

-- The second half of `vote`: the previous option, if any, loses one.
unfoldable pub vote_prev : Option ℕ → VoteBoard → VoteBoard
unfolding fetch_add
vote_prev none b = b
vote_prev (some p) b = if ltb p n_options then fetch_add p minus_one b else b

unfoldable pub vote : Option ℕ → ℕ → VoteBoard → VoteBoard
unfolding vote_next vote_prev
vote prev next b = vote_prev prev (vote_next next b)

unfoldable pub unvote : ℕ → VoteBoard → VoteBoard
unfolding fetch_add
unvote prev b = if ltb prev n_options then fetch_add prev minus_one b else b

-- `.max(0) as u64` on a pattern: the upper half of the patterns is negative.
unfoldable pub clamp : ℕ → ℕ
clamp c = if ltb c (2 ^ 63) then c else 0

unfoldable pub snapshot : VoteBoard → List ℕ
unfolding clamp
snapshot b = from_fn n_options (λ i. clamp (b.counts i))

-- `counts.iter().sum()` in `u64`.
unfoldable pub total_votes : List ℕ → ℕ
total_votes counts = sum counts % 2 ^ 64

unfoldable pub snapshot_with_percentages : {F : Type 0} → Floats F → VoteBoard → List ℕ × List F
unfolding snapshot total_votes
snapshot_with_percentages f32 b =
    let counts = snapshot b in
    let total = total_votes counts in
    (
      counts,
      from_fn n_options (λ i.
          if ltb 0 total
          then f32.div (f32.of_u64 (get_or counts i 0)) (f32.of_u64 total)
          else f32.zero_f32),
    )
