-- ===== src/Client/Session/Votes.antt =====
-- The votes of one connection.
use rust_multichat_server.Base.{
  ℕ, ◌+◌, ◌%◌, ◌^◌, ◌<◌, ◌≡◌, refl, ap, sym, ◌∙◌, Bool, true, false, Option, none, some, List, [],
  ◌∷◌, arith, holds, indicator,
}
use rust_multichat_server.Protocol.{ClientMsg, chat, set_nick, vote, unvote, n_options}
use rust_multichat_server.Vote
use rust_multichat_server.Vote.{VoteBoard}
use rust_multichat_server.Client.Line.{line, end_of_stream, io_error}
use rust_multichat_server.Client.Session.{
  Hub, Session, Codec, Times, Event, reads, write_task_ended, take_back, handle_msg, handle_line,
  decode, serve, disconnect, connect, close, handle_client, Outcome, returned, hub_of,
}

-- The board holds the votes `base` and the one of this connection.
abbrev pub Carries : {F : Type 0} → (ℕ → ℕ) → Session × Hub F → Type 0
Carries base c =
    (i : ℕ)
    → i < n_options
    → c.1.board.counts i ≡ (base i + indicator (holds c.0.current_vote i)) % 2 ^ 64

module _ {F : Type 0} (codec : Codec F) (base : ℕ → ℕ) where
  take_back-counts :
      (held : Option ℕ) (t : Times) (h : Hub F) (i : ℕ)
      → i < n_options
      → h.board.counts i ≡ (base i + indicator (holds held i)) % 2 ^ 64
      → (take_back codec held t h).board.counts i ≡ base i % 2 ^ 64
  unfolding take_back Vote.unvote
  take_back-counts none t h i lt e = e ∙ omega arith
  take_back-counts (some p) t h i lt e = ground arith

  handle_msg-Carries :
      (msg : ClientMsg) (t : Times) (c : Session × Hub F)
      → Carries base c
      → Carries base (handle_msg codec msg t c)
  unfolding handle_msg Vote.vote
  handle_msg-Carries (set_nick name) t (s, h) v i lt = v i lt
  handle_msg-Carries (chat text ts) t (s, h) v i lt = v i lt
  handle_msg-Carries (vote option) t (s, h) v i lt = vote_counts s.current_vote (v i lt)
    where
      vote_counts :
          (prev : Option ℕ)
          → h.board.counts i ≡ (base i + indicator (holds prev i)) % 2 ^ 64
          → (Vote.vote prev option h.board).counts i
            ≡ (base i + indicator (holds (some option) i)) % 2 ^ 64
      vote_counts none e = ground arith
      vote_counts (some p) e = ground arith
  handle_msg-Carries unvote t (s, h) v i lt =
      take_back-counts s.current_vote t h i lt (v i lt) ∙ omega arith

  pub handle_line-Carries :
      (msg : Option ClientMsg) (t : Times) (c : Session × Hub F)
      → Carries base c
      → Carries base (handle_line codec msg t c)
  unfolding handle_line
  handle_line-Carries none t (s, h) v = v
  handle_line-Carries (some msg) t (s, h) v = handle_msg-Carries msg t _ v

  pub serve-Carries :
      (es : List Event) (c : Session × Hub F) → Carries base c → Carries base (serve codec es c).1
  unfolding serve
  serve-Carries [] c v = v
  serve-Carries (reads (line raw) t ∷ es) c v =
      serve-Carries es _ (handle_line-Carries (decode codec raw) t c v)
  serve-Carries (reads end_of_stream t ∷ es) c v = v
  serve-Carries (reads io_error t ∷ es) c v = v
  serve-Carries (write_task_ended ∷ es) c v = v

  pub disconnect-counts :
      (t : Times) (c : Session × Hub F) (i : ℕ)
      → i < n_options
      → Carries base c
      → (disconnect codec t c).board.counts i ≡ base i % 2 ^ 64
  unfolding disconnect
  disconnect-counts t (s, h) i lt v = take_back-counts s.current_vote t h i lt (v i lt)

  close-counts :
      (t : Times) (r : Bool × (Session × Hub F)) (h : Hub F) (i : ℕ)
      → i < n_options
      → Carries base r.1
      → close codec t r ≡ returned h
      → h.board.counts i ≡ base i % 2 ^ 64
  unfolding close
  close-counts t (true, c) h i lt v e =
      ap (λ (o : Outcome F). (hub_of o).board.counts i) (sym e) ∙ disconnect-counts t c i lt v
  close-counts t (false, c) h i lt v e = absurd (cc)

-- Whatever lines a client sends, and however its connection ends, once the handler has returned
-- every counter of the vote board is what it was before the client came: its vote is taken back
-- exactly once, and an unvote or a change of vote before that leaves nothing behind.
pub handle_client_restores_votes :
    {F : Type 0} (codec : Codec F) (id : ℕ) (events : List Event) (t : Times) (h h' : Hub F)
    → ((i : ℕ) → i < n_options → h.board.counts i < 2 ^ 64)
    → handle_client codec id true events t h ≡ returned h'
    → (i : ℕ) → i < n_options
    → h'.board.counts i ≡ h.board.counts i
unfolding handle_client connect
handle_client_restores_votes codec id events t h h' fits e i lt =
    close-counts codec h.board.counts t _ h' i lt
      (serve-Carries codec h.board.counts events _ (λ j lt'. omega (arith, fits j lt'))) e
    ∙ omega (arith, fits i lt)

-- The vote that the messages of the events leave, where `cv` was the vote before them.
abbrev pub next_vote : Option ClientMsg → Option ℕ → Option ℕ
next_vote none cv = cv
next_vote (some (chat text ts)) cv = cv
next_vote (some (set_nick name)) cv = cv
next_vote (some (vote option)) cv = some option
next_vote (some unvote) cv = none

abbrev pub vote_after : {F : Type 0} → Codec F → List Event → Option ℕ → Option ℕ
vote_after codec [] cv = cv
vote_after codec (reads (line raw) t ∷ es) cv =
    vote_after codec es (next_vote (decode codec raw) cv)
vote_after codec (reads end_of_stream t ∷ es) cv = cv
vote_after codec (reads io_error t ∷ es) cv = cv
vote_after codec (write_task_ended ∷ es) cv = cv

module _ {F : Type 0} (codec : Codec F) where
  handle_line-next_vote :
      (msg : Option ClientMsg) (t : Times) (c : Session × Hub F)
      → (handle_line codec msg t c).0.current_vote ≡ next_vote msg c.0.current_vote
  unfolding handle_line
  handle_line-next_vote none t (s, h) = refl
  handle_line-next_vote (some (chat text ts)) t (s, h) = refl
  handle_line-next_vote (some (set_nick name)) t (s, h) = refl
  handle_line-next_vote (some (vote option)) t (s, h) = refl
  handle_line-next_vote (some unvote) t (s, h) = refl

  serve-vote_after :
      (es : List Event) (c : Session × Hub F)
      → (serve codec es c).1.0.current_vote ≡ vote_after codec es c.0.current_vote
  unfolding serve
  serve-vote_after [] c = refl
  serve-vote_after (reads (line raw) t ∷ es) c =
      serve-vote_after es _
      ∙ ap (vote_after codec es) (handle_line-next_vote (decode codec raw) t c)
  serve-vote_after (reads end_of_stream t ∷ es) c = refl
  serve-vote_after (reads io_error t ∷ es) c = refl
  serve-vote_after (write_task_ended ∷ es) c = refl

-- The state that the loop has left when it waits for more or breaks.
abbrev pub served : {F : Type 0} → Codec F → ℕ → List Event → Hub F → Session × Hub F
served codec id events h = let c = connect id h in (serve codec events (c.1, c.2)).1

-- After any events of a connection, and until its clean-up, each counter of the vote board is what
-- it was before the client came plus one for the option of its last vote that no unvote followed,
-- modulo 2 ^ 64: of a client's votes only the last is counted.
pub serve_counts_last_vote :
    {F : Type 0} (codec : Codec F) (id : ℕ) (events : List Event) (h : Hub F)
    → ((i : ℕ) → i < n_options → h.board.counts i < 2 ^ 64)
    → (i : ℕ) → i < n_options
    → (served codec id events h).1.board.counts i
      ≡ (h.board.counts i + indicator (holds (vote_after codec events none) i)) % 2 ^ 64
unfolding connect
serve_counts_last_vote codec id events h fits i lt =
    let c = connect id h in
    serve-Carries codec h.board.counts events (c.1, c.2) (λ j lt'. omega (arith, fits j lt')) i lt
    ∙ ap (λ (cv : Option ℕ). (h.board.counts i + indicator (holds cv i)) % 2 ^ 64)
        (serve-vote_after codec events (c.1, c.2))
