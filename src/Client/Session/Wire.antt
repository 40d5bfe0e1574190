-- ===== src/Client/Session/Wire.antt =====
-- From the bytes that a client writes to what the server does with its messages: the lines that
-- `read_line_bounded` gives are what `handle_client` of src/client.rs serves.
use rust_multichat_server.Base.{
  ℕ, ◌+◌, ◌%◌, ◌^◌, ◌<◌, ◌≡◌, refl, ap, ◌∙◌, Option, none, some, List, [], ◌∷◌, ◌++◌, map, length,
  holds, indicator,
}
use rust_multichat_server.Protocol.{max_line_len, n_options, ClientMsg}
use rust_multichat_server.Client.Line.{Bytes, Fill, ReadLine, line}
use rust_multichat_server.Client.Line.Chunks.{IsProper, bytes}
use rust_multichat_server.Client.Line.Framing.{send_each, read_lines, AllFit, messages_read_back}
use rust_multichat_server.Client.Session.{Codec, Times, Event, Hub, reads, decode}
use rust_multichat_server.Client.Session.Votes.{
  next_vote, vote_after, served, serve_counts_last_vote,
}
use rust_multichat_server.Client.Session.Sent.{final_vote}

-- The session's events for the next `n` lines of the stream.
abbrev pub events_of : Times → ℕ → List Fill → List Event
events_of t n reader = map (λ l. reads l t) (read_lines max_line_len n reader).0

module _ {F : Type 0} (codec : Codec F) (t : Times) where
  vote_after-decoded :
      (lines : List Bytes) (ms : List ClientMsg) (cv : Option ℕ)
      → map (decode codec) lines ≡ map some ms
      → vote_after codec (map (λ l. reads l t) (map line lines)) cv ≡ final_vote ms cv
  vote_after-decoded [] [] cv e = refl
  vote_after-decoded [] (m ∷ ms) cv e = absurd cc
  vote_after-decoded (l ∷ lines) [] cv e = absurd cc
  vote_after-decoded (l ∷ lines) (m ∷ ms) cv e =
      let first : decode codec l ≡ some m = cc in
      let rest : map (decode codec) lines ≡ map some ms = cc in
      ap (λ o. vote_after codec (map (λ l. reads l t) (map line lines)) (next_vote o cv)) first
      ∙ vote_after-decoded lines ms (next_vote (some m) cv) rest

  -- Of the messages of one connection, written one after another and read from any chunks of the
  -- stream, the board counts the vote that they leave, and no other.
  pub sent_votes_counted :
      (encode : ClientMsg → Option Bytes) (ms : List ClientMsg) (sent rest : Bytes)
      (reader : List Fill) (id : ℕ) (h : Hub F) (i : ℕ)
      → ((m : ClientMsg) (json : Bytes) → encode m ≡ some json → decode codec json ≡ some m)
      → AllFit max_line_len encode ms
      → send_each encode ms ≡ some sent
      → IsProper reader
      → bytes reader ≡ sent ++ rest
      → ((j : ℕ) → j < n_options → h.board.counts j < 2 ^ 64)
      → i < n_options
      → (served codec id (events_of t (length ms) reader) h).1.board.counts i
        ≡ (h.board.counts i + indicator (holds (final_vote ms none) i)) % 2 ^ 64
  sent_votes_counted encode ms sent rest reader id h i reads_back fit e proper stream small lt =
      let (lines, read, decoded, _) =
        messages_read_back encode (decode codec) max_line_len ms sent rest reader reads_back fit e
          proper stream in
      serve_counts_last_vote codec id (events_of t (length ms) reader) h small i lt
      ∙ ap (λ (cv : Option ℕ). (h.board.counts i + indicator (holds cv i)) % 2 ^ 64)
          (ap (λ (ls : List ReadLine). vote_after codec (map (λ l. reads l t) ls) none) read
            ∙ vote_after-decoded lines ms none decoded)
