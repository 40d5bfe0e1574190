-- ===== src/Tui/Loop/Wire.antt =====
-- The terminal client and the server's side of its connection, with the bytes between them.
use rust_multichat_server.Base.{
  Bool, ℕ, ◌+◌, ◌%◌, ◌^◌, ◌<◌, ◌≡◌, ◌≢◌, sym, ap, ◌∙◌, Option, some, List, ◌++◌, length, holds,
  indicator,
}
use rust_multichat_server.Protocol.{max_line_len, n_options, ClientMsg, Floats}
use rust_multichat_server.Tui
use rust_multichat_server.Tui.Frame.{Ratatui}
use rust_multichat_server.Tui.Loop.{UiEvent, unsent, event_loop}
use rust_multichat_server.Tui.Loop.Served.{event_loop-my_vote}
use rust_multichat_server.Client.Line.{Bytes, Fill}
use rust_multichat_server.Client.Line.Chunks.{IsProper, bytes}
use rust_multichat_server.Client.Line.Framing.{send_each, AllFit}
use rust_multichat_server.Client.Session.{Codec, Times, Hub, decode}
use rust_multichat_server.Client.Session.Votes.{served}
use rust_multichat_server.Client.Session.Wire.{events_of, sent_votes_counted}

-- However a user and the server act on a terminal client, in either build profile and up to a
-- panic if there is one, and as long as no send fails, the vote
-- that the client marks as the user's own is the one that the server counts for this client, once
-- it has read as many lines as there are messages, whichever way the bytes that the client has
-- written are cut into chunks and whatever bytes follow them: each counter of the board, a 64-bit
-- pattern, is what it was before the client came plus one for that option, if there is one, modulo
-- 2 ^ 64. The encoding of messages is to be read back as it was written, and that of each message
-- sent to fit a line.
pub typed_vote_counted :
    {F : Type 0} (checks : Bool) (ui : Ratatui F) (f32 : Floats F) (codec : Codec F)
    (encode : ClientMsg → Option Bytes) (t : Times) (es : List (UiEvent F)) (sent rest : Bytes)
    (reader : List Fill) (id : ℕ) (h : Hub F) (i : ℕ)
    → ((m : ClientMsg) (json : Bytes) → encode m ≡ some json → decode codec json ≡ some m)
    → AllFit max_line_len encode (event_loop checks ui es (Tui.new f32)).0
    → send_each encode (event_loop checks ui es (Tui.new f32)).0 ≡ some sent
    → IsProper reader
    → bytes reader ≡ sent ++ rest
    → ((j : ℕ) → j < n_options → h.board.counts j < 2 ^ 64)
    → (event_loop checks ui es (Tui.new f32)).2 ≢ unsent
    → i < n_options
    → (served codec id
          (events_of t (length (event_loop checks ui es (Tui.new f32)).0) reader)
          h).1.board.counts
        i
      ≡ (h.board.counts i + indicator (holds (event_loop checks ui es (Tui.new f32)).1.my_vote i))
        % 2 ^ 64
unfolding Tui.new
typed_vote_counted checks ui f32 codec encode t es sent rest reader id h i reads_back fit e proper
      stream small ok lt =
    sent_votes_counted codec t encode (event_loop checks ui es (Tui.new f32)).0 sent rest reader id
      h i reads_back fit e proper stream small lt
    ∙ ap (λ (cv : Option ℕ). (h.board.counts i + indicator (holds cv i)) % 2 ^ 64)
        (sym (event_loop-my_vote checks ui es (Tui.new f32) ok))
