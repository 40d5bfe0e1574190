-- ===== src/Client/Session.antt =====
-- `handle_client` of src/client.rs: what one connection does to the room, the vote board and the
-- metrics. The codecs of `serde_json` and of the standard library's lossy UTF-8 are arguments, as
-- are the clock values that a message reads.
pub mod Votes
pub mod Membership
pub mod Chats
pub mod Returns
pub mod Sent
pub mod Wire
use rust_multichat_server.Base.{
  ℕ, Bool, true, false, Option, none, some, List, [], ◌∷◌, if◌then◌else◌,
}
use rust_multichat_server.Protocol.{
  Text, Floats, ClientMsg, chat, set_nick, vote, unvote, ServerMsg, welcome, vote_snapshot,
}
use rust_multichat_server.Protocol
use rust_multichat_server.Vote
use rust_multichat_server.Vote.{VoteBoard}
use rust_multichat_server.Room
use rust_multichat_server.Room.{Room}
use rust_multichat_server.Metrics
use rust_multichat_server.Metrics.{Metrics}
use rust_multichat_server.Client.Line.{Bytes, ReadLine, line, end_of_stream, io_error}

-- What all connections share.
pub record Hub (F : Type 0) : Type 0 where
  pub room : Room F
  pub board : VoteBoard
  pub metrics : Metrics

-- The locals of one `handle_client`.
pub record Session : Type 0 where
  pub id : ℕ
  pub current_vote : Option ℕ
  pub nick : Option Text

pub record Codec (F : Type 0) : Type 0 where
  pub from_utf8_lossy : Bytes → Text
  pub from_str : Text → Option ClientMsg
  pub floats : Floats F

-- The clock at the handler or `broadcast_vote_throttled`, and at `schedule_vote_flush`.
pub record Times : Type 0 where
  pub now_ms : ℕ
  pub schedule_ms : ℕ

-- What `select!` gives the loop.
pub data Event : Type 0 where
  reads : ReadLine → Times → Event
  write_task_ended : Event

-- The hub, and whether the handler has returned: `failed` is the early return at the welcome line.
pub data Outcome (F : Type 0) : Type 0 where
  open_still : Session × Hub F → Outcome F
  returned : Hub F → Outcome F
  failed : Hub F → Outcome F

abbrev pub hub_of : {F : Type 0} → Outcome F → Hub F
hub_of (open_still c) = c.1
hub_of (returned h) = h
hub_of (failed h) = h

-- The connection joins the room; the message is its welcome line.
unfoldable pub connect : {F : Type 0} → ℕ → Hub F → ServerMsg F × Session × Hub F
connect id h =
    let (room, peer_count) = Room.join id h.room in
    (
      welcome peer_count,
      record { id = id; current_vote = none; nick = none },
      record h { room = room },
    )

module _ {F : Type 0} (codec : Codec F) where
  -- `snapshot_with_percentages` and the throttled broadcast that follow a change of the board.
  unfoldable pub announce_votes : Times → Hub F → Hub F
  announce_votes t h =
      let (counts, percentages) = Vote.snapshot_with_percentages codec.floats h.board in
      record h {
        room =
            Room.broadcast_vote_throttled (vote_snapshot counts percentages) t.now_ms t.schedule_ms
              h.room;
      }

  -- `Unvote`, and the end of the connection: a vote that is held is taken back.
  unfoldable pub take_back : Option ℕ → Times → Hub F → Hub F
  unfolding announce_votes
  take_back none t h = h
  take_back (some prev) t h = announce_votes t (record h { board = Vote.unvote prev h.board })

  unfoldable pub handle_msg : ClientMsg → Times → Session × Hub F → Session × Hub F
  unfolding announce_votes take_back
  handle_msg (set_nick name) t (s, h) =
      (record s { nick = some name }, record h { room = Room.set_nick s.id name h.room })
  handle_msg (chat text client_ts) t (s, h) = (
    s,
    record h {
      room = Room.broadcast (Protocol.ServerMsg.chat s.id s.nick text t.now_ms client_ts) h.room;
      metrics = Metrics.record_sent h.metrics;
    },
  )
  handle_msg (vote option) t (s, h) = (
    record s { current_vote = some option },
    announce_votes t (record h { board = Vote.vote s.current_vote option h.board }),
  )
  handle_msg unvote t (s, h) = (record s { current_vote = none }, take_back s.current_vote t h)

  -- A line that is no message is skipped.
  unfoldable pub handle_line : Option ClientMsg → Times → Session × Hub F → Session × Hub F
  unfolding handle_msg
  handle_line none t (s, h) = (s, h)
  handle_line (some msg) t (s, h) =
      handle_msg msg t (s, record h { metrics = Metrics.record_recv h.metrics })

  abbrev pub decode : Bytes → Option ClientMsg
  decode raw = codec.from_str (codec.from_utf8_lossy raw)

  -- The loop; the Boolean tells whether it has been left.
  unfoldable pub serve : List Event → Session × Hub F → Bool × (Session × Hub F)
  unfolding handle_line
  serve [] c = (false, c)
  serve (reads (line raw) t ∷ es) c = serve es (handle_line (decode raw) t c)
  serve (reads end_of_stream t ∷ es) c = (true, c)
  serve (reads io_error t ∷ es) c = (true, c)
  serve (write_task_ended ∷ es) c = (true, c)

  -- What is done once the loop has been left.
  unfoldable pub disconnect : Times → Session × Hub F → Hub F
  unfolding take_back
  disconnect t (s, h) =
      let h' = take_back s.current_vote t h in record h' { room = Room.leave s.id h'.room }

  unfoldable pub close : Times → Bool × (Session × Hub F) → Outcome F
  unfolding disconnect
  close t (true, c) = returned (disconnect t c)
  close t (false, c) = open_still c

  -- `welcomed` tells whether the welcome line could be written, `t` is the clock at the end.
  unfoldable pub handle_client : ℕ → Bool → List Event → Times → Hub F → Outcome F
  unfolding connect serve close
  handle_client id welcomed events t h =
      let (msg, s, h') = connect id h in
      if welcomed then close t (serve events (s, h')) else failed h'
