-- ===== src/Bot/Fickle.antt =====
-- src/bot/fickle.rs: the bot that changes its vote, and keeps the last snapshot that it sees. The
-- random options, whether a send comes through, whether the bot leads at the barrier, and what its
-- lines parse to are arguments; the waits between the sends have no state. A send that fails is
-- taken to deliver nothing.
pub mod Served
pub mod Wire
pub mod Barrier
use rust_multichat_server.Base.{
  ℕ, zero, suc, ◌+◌, ◌≤◌, ◌<◌, ◌≡◌, refl, ap, ◌∙◌, Bool, true, false, Option, none, some, List, [],
  ◌∷◌, ◌++◌, map, if◌then◌else◌, Bool-cases, inl, inr, arith,
}
use rust_multichat_server.Protocol.{n_options, ClientMsg, vote, ServerMsg, vote_snapshot}
use rust_multichat_server.Bot.Tally.{FickleResult}
use rust_multichat_server.Client.Line.{Bytes, line}
use rust_multichat_server.Client.Session.{Codec, Times, Event, reads, decode}
use rust_multichat_server.Client.Session.Votes.{next_vote, vote_after}

abbrev pub re_vote_rounds : ℕ
re_vote_rounds = 3

-- The messages that are sent, and `none` where a send fails.
abbrev pub Sending : Type 0
Sending = List ClientMsg × Option (Option ℕ)

-- The voting loop from number `seq` on, with `left` votes to cast.
unfoldable pub vote_rounds : (ℕ → ℕ) → (ℕ → Bool) → ℕ → ℕ → Option ℕ → Sending
vote_rounds gen_range sends seq zero last_vote = ([], some last_vote)
vote_rounds gen_range sends seq (suc left) last_vote =
    let rest = vote_rounds gen_range sends (suc seq) left (some (gen_range seq)) in
    if sends seq then (vote (gen_range seq) ∷ rest.0, rest.1) else ([], none)

-- The leader's votes for the option that it has.
unfoldable pub re_vote : (ℕ → Bool) → ℕ → ℕ → ℕ → Sending
re_vote sends seq opt zero = ([], some (some opt))
re_vote sends seq opt (suc left) =
    let rest = re_vote sends (suc seq) opt left in
    if sends seq then (vote opt ∷ rest.0, rest.1) else ([], none)

-- What follows the barrier.
unfoldable pub after_barrier : (ℕ → Bool) → ℕ → Bool → Option ℕ → Sending
unfolding re_vote
after_barrier sends seq false last_vote = ([], some last_vote)
after_barrier sends seq true none = ([], some none)
after_barrier sends seq true (some opt) = re_vote sends seq opt re_vote_rounds

-- The receiving task: a line that is no message is `none`.
unfoldable pub watch :
    {F : Type 0} → List (Option (ServerMsg F)) → Option (List ℕ) → Option (List ℕ)
watch [] snapshot = snapshot
watch (some (vote_snapshot counts percentages) ∷ lines) snapshot = watch lines (some counts)
watch (_ ∷ lines) snapshot = watch lines snapshot

-- The messages that the run sends, and its result.
unfoldable pub run_votes : (ℕ → ℕ) → (ℕ → Bool) → ℕ → Bool → Sending
unfolding vote_rounds after_barrier
run_votes gen_range sends vote_count is_leader =
    let voted = vote_rounds gen_range sends 0 vote_count none in
    elim voted.1 [
      | none ↦ (voted.0, none)
      | some last_vote ↦
          let more = after_barrier sends vote_count is_leader last_vote in
          (voted.0 ++ more.0, elim more.1 [ none ↦ none | some _ ↦ some last_vote ])
    ]

-- The first argument tells whether the bot connects.
unfoldable pub run :
    {F : Type 0}
    → Bool
    → (ℕ → ℕ)
    → (ℕ → Bool)
    → ℕ
    → Bool
    → List (Option (ServerMsg F))
    → List ClientMsg × Option FickleResult
unfolding run_votes watch
run false gen_range sends vote_count is_leader lines = ([], none)
run true gen_range sends vote_count is_leader lines =
    let votes = run_votes gen_range sends vote_count is_leader in
    (
      votes.0,
      elim votes.1 [
        | none ↦ none
        | some last_vote ↦ some (record { last_vote = last_vote; last_snapshot = watch lines none })
      ],
    )
