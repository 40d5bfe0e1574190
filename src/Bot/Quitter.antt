-- ===== src/Bot/Quitter.antt =====
-- src/bot/quitter.rs and src/bot/ghost.rs: the bot that votes once and drops its connection, and
-- the one that only holds it. The random option and whether the send comes through are arguments.
use rust_multichat_server.Base.{
  ℕ, ◌^◌, ◌<◌, ◌≡◌, Bool, true, false, none, List, [], ◌∷◌, ◌++◌, lookup,
}
use rust_multichat_server.Protocol.{n_options, ClientMsg, vote}
use rust_multichat_server.Client.Line.{Bytes, end_of_stream}
use rust_multichat_server.Client.Session.{Hub, Codec, Times, reads, handle_client, returned}
use rust_multichat_server.Client.Session.Returns.{handle_client_returns}
use rust_multichat_server.Client.Session.Sent.{lines_of}

abbrev pub ghost_hold_secs : ℕ
ghost_hold_secs = 5

-- The messages sent, and whether the run succeeds; the first argument tells whether the bot connects.
unfoldable pub quitter_run : Bool → ℕ → Bool → List ClientMsg × Bool
quitter_run false option sends = ([], false)
quitter_run true option true = (vote option ∷ [], true)
quitter_run true option false = ([], false)

-- The ghost sends nothing, and reads nothing while it holds the connection.
unfoldable pub ghost_run : Bool → List ClientMsg × Bool
ghost_run connects = ([], connects)

-- A quitter with a new id leaves the counters of the board and the members of the room as they were
-- once the server has read what it sent and then the end of its stream.
quitter_leaves_nothing :
    {F : Type 0} (codec : Codec F) (encode : ClientMsg → Bytes) (t : Times) (option : ℕ)
    (sends : Bool) (id : ℕ) (h : Hub F)
    → ((i : ℕ) → i < n_options → h.board.counts i < 2 ^ 64)
    → lookup id h.room.clients ≡ none
    → (h' : Hub F) × (handle_client codec id true
          (lines_of encode t (quitter_run true option sends).0 ++ reads end_of_stream t ∷ [])
          t
          h
        ≡ returned h')
      × ((i : ℕ) → i < n_options → h'.board.counts i ≡ h.board.counts i)
      × (h'.room.clients ≡ h.room.clients)
quitter_leaves_nothing codec encode t option sends id h fits fresh =
    handle_client_returns codec id (lines_of encode t (quitter_run true option sends).0)
      (reads end_of_stream t) t h tt fits fresh
