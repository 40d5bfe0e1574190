-- ===== src/Vote/Snapshot.antt =====
-- What a snapshot of the vote board shows while other clients are in the middle of `vote`.
use rust_multichat_server.Base.{
  ℕ, zero, suc, ap, fun_ext, ◌∙◌, ◌+◌, ◌%◌, ◌^◌, ◌≤◌, ◌<◌, ◌≡◌, refl, arith, length, from_fn,
  get_or,
}
use rust_multichat_server.Protocol.{n_options}
use rust_multichat_server.Vote.{snapshot, clamp}
use rust_multichat_server.Vote.Counting.{
  votes_for, votes_for-le, chosen, before, after, chosen-before-le, chosen-after-le, in_flight,
  votes_for-le-after, chosen-at_rest,
}
use rust_multichat_server.Vote.Race.{State, Reach, Reach-Counts}

-- Far more clients than the server admits, and few enough for a 64-bit counter.
abbrev pub max_voters : ℕ
max_voters = 2 ^ 61

-- In every state that any interleaving of clients reaches, no counter is negative: each is exactly the number of votes that the clients account for.
pub counts_exact :
    {s : State}
    → Reach s
    → length s.voters ≤ max_voters
    → (i : ℕ) → i < n_options
    → (s.board.counts i ≡ votes_for s.voters i) × (s.board.counts i < 2 ^ 63)
counts_exact {s} r few i h =
    let e : s.board.counts i ≡ votes_for s.voters i % 2 ^ 64 = Reach-Counts r i h in
    omega (arith, e, votes_for-le s.voters i)

pub clamp_lem : (c : ℕ) → c < 2 ^ 63 → clamp c ≡ c
unfolding clamp
clamp_lem c h = ground arith

pub snapshot-votes_for :
    {s : State}
    → Reach s
    → length s.voters ≤ max_voters
    → snapshot s.board ≡ from_fn n_options (votes_for s.voters)
unfolding snapshot
snapshot-votes_for {s} r few =
    let shown : (i : ℕ) → i < n_options → clamp (s.board.counts i) ≡ votes_for s.voters i =
      λ i h. clamp_lem _ (counts_exact r few i h).1 ∙ (counts_exact r few i h).0 in
    rw (shown 0 (omega arith), shown 1 (omega arith), shown 2 (omega arith), shown 3 (omega arith))

get_or-from_fn : (f : ℕ → ℕ) (i : ℕ) → i < n_options → get_or (from_fn n_options f) i 0 ≡ f i
get_or-from_fn f zero h = refl
get_or-from_fn f (suc zero) h = refl
get_or-from_fn f (suc (suc zero)) h = refl
get_or-from_fn f (suc (suc (suc zero))) h = refl
get_or-from_fn f (suc (suc (suc (suc i)))) h = absurd (omega arith)

-- In every state that any interleaving of clients reaches, a snapshot only errs upwards: for each
-- option it counts at least the clients whose vote it was before the operation they are in, and at
-- least those whose vote it will be after it. It is above the latter by at most the number of
-- clients that are between their two atomic operations.
pub snapshot_overcounts :
    {s : State}
    → Reach s
    → length s.voters ≤ max_voters
    → (i : ℕ) → i < n_options
    → (chosen before s.voters i ≤ get_or (snapshot s.board) i 0)
      × (chosen after s.voters i ≤ get_or (snapshot s.board) i 0)
      × (get_or (snapshot s.board) i 0 ≤ chosen after s.voters i + in_flight s.voters)
snapshot_overcounts {s} r few i h =
    rw (snapshot-votes_for r few, get_or-from_fn (votes_for s.voters) i h)
      (chosen-before-le s.voters i, chosen-after-le s.voters i, votes_for-le-after s.voters i)

-- Once no client is between its two atomic operations, the snapshot is exact: each option shows
-- the number of clients whose vote it is.
pub snapshot_at_rest :
    {s : State}
    → Reach s
    → length s.voters ≤ max_voters
    → in_flight s.voters ≡ 0
    → snapshot s.board ≡ from_fn n_options (chosen after s.voters)
snapshot_at_rest {s} r few rest =
    rw (snapshot-votes_for r few)
      (ap (from_fn n_options) (fun_ext (λ i. chosen-at_rest s.voters i rest)))
