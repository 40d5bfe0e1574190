-- ===== src/Client/Session/Returns.antt =====
-- A connection whose stream ends.
use rust_multichat_server.Base.{
  ℕ, ◌^◌, ◌<◌, ◌≡◌, refl, Bool, true, false, none, List, [], ◌∷◌, ◌++◌, lookup,
}
use rust_multichat_server.Protocol.{n_options}
use rust_multichat_server.Client.Line.{line, end_of_stream, io_error}
use rust_multichat_server.Client.Session.{
  Hub, Session, Codec, Times, Event, reads, write_task_ended, serve, disconnect, close, connect,
  handle_client, returned,
}
use rust_multichat_server.Client.Session.Votes.{handle_client_restores_votes}
use rust_multichat_server.Client.Session.Membership.{handle_client_restores_members}

-- An event at which the loop breaks.
abbrev pub Ends : Event → Type 0
Ends (reads (line raw) t) = ⊥
Ends _ = Unit

module _ {F : Type 0} (codec : Codec F) where
  serve-Ends :
      (es : List Event) (last : Event) (c : Session × Hub F)
      → Ends last
      → (serve codec (es ++ last ∷ []) c).0 ≡ true
  unfolding serve
  serve-Ends [] (reads (line raw) t) c e = absurd e
  serve-Ends [] (reads end_of_stream t) c e = refl
  serve-Ends [] (reads io_error t) c e = refl
  serve-Ends [] write_task_ended c e = refl
  serve-Ends (reads (line raw) t ∷ es) last c e = serve-Ends es last _ e
  serve-Ends (reads end_of_stream t ∷ es) last c e = refl
  serve-Ends (reads io_error t ∷ es) last c e = refl
  serve-Ends (write_task_ended ∷ es) last c e = refl

  close-returned :
      (t : Times) (r : Bool × (Session × Hub F))
      → r.0 ≡ true
      → close codec t r ≡ returned (disconnect codec t r.1)
  unfolding close
  close-returned t (true, c) e = refl
  close-returned t (false, c) e = absurd (cc)

  -- For a client with a new id, on a board of 64-bit counters, and however its connection goes:
  -- once its stream has ended, a read has failed, or its write task has ended, the handler returns,
  -- and every counter of the board and the list of members are then what they were before it came.
  pub handle_client_returns :
      (id : ℕ) (events : List Event) (last : Event) (t : Times) (h : Hub F)
      → Ends last
      → ((i : ℕ) → i < n_options → h.board.counts i < 2 ^ 64)
      → lookup id h.room.clients ≡ none
      → (h' : Hub F) × (handle_client codec id true (events ++ last ∷ []) t h ≡ returned h')
        × ((i : ℕ) → i < n_options → h'.board.counts i ≡ h.board.counts i)
        × (h'.room.clients ≡ h.room.clients)
  handle_client_returns id events last t h ends fits fresh =
      let c = connect id h in
      let es = events ++ last ∷ [] in
      let h' = disconnect codec t (serve codec es (c.1, c.2)).1 in
      let e : handle_client codec id true es t h ≡ returned h' =
        unfold handle_client in close-returned t _ (serve-Ends events last (c.1, c.2) ends) in
      (
        h',
        e,
        handle_client_restores_votes codec id es t h h' fits e,
        handle_client_restores_members codec id es t h h' fresh e,
      )
