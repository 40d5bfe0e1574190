-- ===== src/Bot/Fickle/Wire.antt =====
-- The fickle bot and the server's side of its connection, with the bytes between them.
use rust_multichat_server.Base.{
  ℕ, ◌+◌, ◌%◌, ◌^◌, ◌<◌, ◌≡◌, ap, ◌∙◌, Bool, Option, some, List, ◌++◌, length, holds, indicator,
}
use rust_multichat_server.Protocol.{max_line_len, n_options, ClientMsg, ServerMsg}
use rust_multichat_server.Bot.Tally.{FickleResult}
use rust_multichat_server.Bot.Fickle.{run}
use rust_multichat_server.Bot.Fickle.Served.{run-final}
use rust_multichat_server.Client.Line.{Bytes, Fill}
use rust_multichat_server.Client.Line.Chunks.{IsProper, bytes}
use rust_multichat_server.Client.Line.Framing.{send_each, AllFit}
use rust_multichat_server.Client.Session.{Codec, Times, Hub, decode}
use rust_multichat_server.Client.Session.Votes.{served}
use rust_multichat_server.Client.Session.Wire.{events_of, sent_votes_counted}

-- A fickle bot that comes to a result has, on the server that has read as many lines as the bot has
-- sent messages, exactly the vote that it reports, whichever way the bytes that the bot has written
-- are cut into chunks and whatever bytes follow them: each counter of the board, a 64-bit pattern,
-- is what it was before the bot came plus one for the reported option, if there is one, modulo
-- 2 ^ 64. The encoding of messages is to be read back as it was written, and that of each message
-- sent to fit a line.
pub reported_vote_counted :
    {F : Type 0} (codec : Codec F) (encode : ClientMsg → Option Bytes) (t : Times) (connects : Bool)
    (gen_range : ℕ → ℕ) (sends : ℕ → Bool) (vote_count : ℕ) (is_leader : Bool)
    (lines : List (Option (ServerMsg F))) (r : FickleResult) (sent rest : Bytes)
    (reader : List Fill) (id : ℕ) (h : Hub F) (i : ℕ)
    → (run connects gen_range sends vote_count is_leader lines).1 ≡ some r
    → ((m : ClientMsg) (json : Bytes) → encode m ≡ some json → decode codec json ≡ some m)
    → AllFit max_line_len encode (run connects gen_range sends vote_count is_leader lines).0
    → send_each encode (run connects gen_range sends vote_count is_leader lines).0 ≡ some sent
    → IsProper reader
    → bytes reader ≡ sent ++ rest
    → ((j : ℕ) → j < n_options → h.board.counts j < 2 ^ 64)
    → i < n_options
    → (served codec id
          (events_of t (length (run connects gen_range sends vote_count is_leader lines).0) reader)
          h).1.board.counts
        i
      ≡ (h.board.counts i + indicator (holds r.last_vote i)) % 2 ^ 64
reported_vote_counted codec encode t connects gen_range sends vote_count is_leader lines r sent rest
      reader id h i came reads_back fit e proper stream small lt =
    let ms = (run connects gen_range sends vote_count is_leader lines).0 in
    sent_votes_counted codec t encode ms sent rest reader id h i reads_back fit e proper stream
      small lt
    ∙ ap (λ (cv : Option ℕ). (h.board.counts i + indicator (holds cv i)) % 2 ^ 64)
        (run-final connects gen_range sends vote_count is_leader lines r came)
