-- ===== src/Bot/Fickle/Served.antt =====
-- The fickle bot and the server's side of its connection.
use rust_multichat_server.Base.{
  ℕ, zero, suc, ◌+◌, ◌%◌, ◌^◌, ◌<◌, ◌≡◌, refl, ap, ◌∙◌, Bool, true, false, Option, none, some, List,
  holds, indicator, Bool-cases, Option-cases, inl, inr, arith,
}
use rust_multichat_server.Protocol.{n_options, ClientMsg, ServerMsg}
use rust_multichat_server.Bot.Tally.{FickleResult}
use rust_multichat_server.Bot.Fickle.{
  vote_rounds, re_vote, re_vote_rounds, after_barrier, run_votes, run,
}
use rust_multichat_server.Client.Line.{Bytes}
use rust_multichat_server.Client.Session.{Codec, Times, decode, Hub}
use rust_multichat_server.Client.Session.Sent.{
  final_vote, final_vote-append, lines_of, vote_after-lines_of,
}
use rust_multichat_server.Client.Session.Votes.{served, serve_counts_last_vote}

vote_rounds-final :
    (gen_range : ℕ → ℕ) (sends : ℕ → Bool) (seq left : ℕ) (cv v : Option ℕ)
    → (vote_rounds gen_range sends seq left cv).1 ≡ some v
    → final_vote (vote_rounds gen_range sends seq left cv).0 cv ≡ v
unfolding vote_rounds
vote_rounds-final gen_range sends seq zero cv v e = ground arith
vote_rounds-final gen_range sends seq (suc left) cv v e = elim (Bool-cases (sends seq)) [
  | inl sent ↦
      rw sent
        (vote_rounds-final gen_range sends (suc seq) left (some (gen_range seq)) v (rw sent at e))
  | inr failed ↦ absurd (ground arith)
]

re_vote-final :
    (sends : ℕ → Bool) (seq opt left : ℕ) (v : Option ℕ)
    → (re_vote sends seq opt left).1 ≡ some v
    → final_vote (re_vote sends seq opt left).0 (some opt) ≡ some opt
unfolding re_vote
re_vote-final sends seq opt zero v e = refl
re_vote-final sends seq opt (suc left) v e = elim (Bool-cases (sends seq)) [
  | inl sent ↦ rw sent (re_vote-final sends (suc seq) opt left v (rw sent at e))
  | inr failed ↦ absurd (ground arith)
]

after_barrier-final :
    (sends : ℕ → Bool) (seq : ℕ) (is_leader : Bool) (cv v : Option ℕ)
    → (after_barrier sends seq is_leader cv).1 ≡ some v
    → final_vote (after_barrier sends seq is_leader cv).0 cv ≡ cv
unfolding after_barrier
after_barrier-final sends seq false cv v e = refl
after_barrier-final sends seq true none v e = refl
after_barrier-final sends seq true (some opt) v e = re_vote-final sends seq opt re_vote_rounds v e

run_votes-final :
    (gen_range : ℕ → ℕ) (sends : ℕ → Bool) (vote_count : ℕ) (is_leader : Bool) (v : Option ℕ)
    → (run_votes gen_range sends vote_count is_leader).1 ≡ some v
    → final_vote (run_votes gen_range sends vote_count is_leader).0 none ≡ v
unfolding run_votes
run_votes-final gen_range sends vote_count is_leader v e =
    elim (Option-cases (vote_rounds gen_range sends 0 vote_count none).1) [
      | inl failed ↦ absurd (ground arith)
      | inr (w, done) ↦ elim (Option-cases (after_barrier sends vote_count is_leader w).1) [
        | inl failed ↦ absurd (ground arith)
        | inr (u, more) ↦
            let first = vote_rounds-final gen_range sends 0 vote_count none w done in
            let second = after_barrier-final sends vote_count is_leader w u more in
            let same : w ≡ v = ground arith in
            rw (run_votes, done)
              (final_vote-append (vote_rounds gen_range sends 0 vote_count none).0 _ none
                ∙ ap (final_vote (after_barrier sends vote_count is_leader w).0) first
                ∙ second
                ∙ same)
      ]
    ]

-- A bot that comes to a result reports the vote that its messages leave.
pub run-final :
    {F : Type 0} (connects : Bool) (gen_range : ℕ → ℕ) (sends : ℕ → Bool) (vote_count : ℕ)
    (is_leader : Bool) (lines : List (Option (ServerMsg F))) (r : FickleResult)
    → (run connects gen_range sends vote_count is_leader lines).1 ≡ some r
    → final_vote (run connects gen_range sends vote_count is_leader lines).0 none ≡ r.last_vote
unfolding run
run-final false gen_range sends vote_count is_leader lines r e = absurd cc
run-final true gen_range sends vote_count is_leader lines r e =
    elim (Option-cases (run_votes gen_range sends vote_count is_leader).1) [
      | inl failed ↦ absurd (ground arith)
      | inr (v, came) ↦
          let same : v ≡ r.last_vote = ground arith in
          run_votes-final gen_range sends vote_count is_leader v came ∙ same
    ]

module _ {F : Type 0} (codec : Codec F) (encode : ClientMsg → Bytes) (t : Times) where
  -- Where the encoding of messages is read back as it was written, a fickle bot that comes to a
  -- result has, on the server that has read all its messages, exactly the vote that it reports:
  -- each counter of the board, a 64-bit pattern, is what it was before the bot came plus one for
  -- the reported option, if there is one, modulo 2 ^ 64.
  pub run-served :
      (connects : Bool) (gen_range : ℕ → ℕ) (sends : ℕ → Bool) (vote_count : ℕ) (is_leader : Bool)
      (lines : List (Option (ServerMsg F))) (id : ℕ) (h : Hub F) (r : FickleResult)
      → ((m : ClientMsg) → decode codec (encode m) ≡ some m)
      → ((i : ℕ) → i < n_options → h.board.counts i < 2 ^ 64)
      → (run connects gen_range sends vote_count is_leader lines).1 ≡ some r
      → (i : ℕ) → i < n_options
      → (served codec id
            (lines_of encode t (run connects gen_range sends vote_count is_leader lines).0)
            h).1.board.counts
          i
        ≡ (h.board.counts i + indicator (holds r.last_vote i)) % 2 ^ 64
  run-served connects gen_range sends vote_count is_leader lines id h r reads_back fits e i lt =
      let sent = (run connects gen_range sends vote_count is_leader lines).0 in
      serve_counts_last_vote codec id (lines_of encode t sent) h fits i lt
      ∙ ap (λ (cv : Option ℕ). (h.board.counts i + indicator (holds cv i)) % 2 ^ 64)
          (vote_after-lines_of codec encode t reads_back sent none
            ∙ run-final connects gen_range sends vote_count is_leader lines r e)
