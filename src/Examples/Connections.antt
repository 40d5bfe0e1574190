-- ===== src/Examples/Connections.antt =====
-- One connection: its lines, its votes, its chats and its place in the room.
use rust_multichat_server.Base.{
  ℕ, ◌+◌, ◌%◌, ◌^◌, ◌≡◌, refl, true, false, none, some, List, [], ◌∷◌, ◌++◌, lookup, length,
  indicator, holds, arith,
}
use rust_multichat_server.Protocol.{server, presence}
use rust_multichat_server.Client.Line.{chunk, Fill, read_line_bounded, consume}
use rust_multichat_server.Client.Line.Spec.{bounded_line, rest_of}
use rust_multichat_server.Client.Line.Chunks.{IsProper, bytes, read_line_bounded_lem}
use rust_multichat_server.Client.Session.{
  Hub, connect, serve, close, disconnect, handle_client, failed,
}
use rust_multichat_server.Client.Session.Votes.{served, vote_after, serve_counts_last_vote}
use rust_multichat_server.Client.Session.Membership.{failed_welcome_keeps_member}
use rust_multichat_server.Client.Session.Chats.{chats, all_said, serve_chats}
use rust_multichat_server.Client.Session
use rust_multichat_server.Client.Line
use rust_multichat_server.Client.Session.Returns.{handle_client_returns}
use rust_multichat_server.Protocol.{n_options}
use rust_multichat_server.Base.{◌<◌}
use rust_multichat_server.Examples.Data.{ascii, clock, talk, hub}

-- A line in two chunks, and the first byte of the next one.
abbrev stream : List Fill
stream = chunk (b'a' ∷ b'b' ∷ []) ∷ chunk (b'\r' ∷ b'\n' ∷ b'c' ∷ []) ∷ []

read_line_bounded_example :
    ((read_line_bounded 3 stream).0 ≡ bounded_line 3 (bytes stream))
    × (bytes (read_line_bounded 3 stream).1 ≡ rest_of (bytes stream))
    × IsProper (read_line_bounded 3 stream).1
read_line_bounded_example = read_line_bounded_lem 3 stream tt

-- The hub after the talk and the end of the connection.
abbrev quitted : Hub ℕ
unfolding connect serve disconnect
quitted = let c = connect 9 hub in disconnect ascii clock (serve ascii talk (c.1, c.2)).1

abbrev ended : List Session.Event
ended = talk ++ Session.reads Line.end_of_stream clock ∷ []

quits : handle_client ascii 9 true ended clock hub ≡ Session.returned quitted
unfolding handle_client quitted
quits = refl

serve_counts_last_vote_example :
    (served ascii 9 talk hub).1.board.counts 2
    ≡ (3 + indicator (holds (vote_after ascii talk none) 2)) % 2 ^ 64
serve_counts_last_vote_example =
    serve_counts_last_vote ascii 9 talk hub (λ i h. omega arith) 2 (omega arith)

serve_chats_example :
    (chats (served ascii 9 talk hub).1.room ≡ chats hub.room ++ all_said ascii 9 talk none)
    × ((served ascii 9 talk hub).1.metrics.sent_count % 2 ^ 64
        ≡ (hub.metrics.sent_count + length (all_said ascii 9 talk none)) % 2 ^ 64)
serve_chats_example = serve_chats ascii 9 talk hub

-- The hub after a connection whose welcome line could not be written.
abbrev stranded : Hub ℕ
unfolding connect
stranded = (connect 9 hub).2

fails : handle_client ascii 9 false [] clock hub ≡ failed stranded
unfolding handle_client stranded
fails = refl

failed_welcome_keeps_member_example :
    (lookup 9 stranded.room.clients ≡ some (record { id = 9; name = none }))
    × (stranded.room.sent ≡ hub.room.sent ++ server (presence 9 true) ∷ [])
failed_welcome_keeps_member_example =
    failed_welcome_keeps_member ascii 9 [] clock hub stranded fails

handle_client_returns_example :
    (h' : Hub ℕ) × (handle_client ascii 9 true (talk ++ Session.write_task_ended ∷ []) clock hub
      ≡ Session.returned h')
    × ((i : ℕ) → i < n_options → h'.board.counts i ≡ hub.board.counts i)
    × (h'.room.clients ≡ hub.room.clients)
handle_client_returns_example =
    handle_client_returns ascii 9 talk Session.write_task_ended clock hub tt (λ i h. omega arith)
      refl
