-- ===== src/Lib.antt =====
-- Verification library of rust-multichat-server, a group chat server with votes, its terminal client
-- and its load-testing bots.
--
-- The server (src/server.rs) accepts up to 500 connections and serves each in a task of its own
-- (src/client.rs). The tasks share a room (src/room.rs), which broadcasts the chats, the presence
-- events and the throttled vote snapshots, a board of four atomic vote counters (src/vote.rs), and two
-- counters of messages (src/metrics.rs). The messages are those of src/protocol.rs, one JSON text per
-- line. The terminal client (src/tui.rs) shows the room; the bots (src/bot) connect in numbers, vote
-- and chat, and check that the votes that they see add up.
--
-- Which file models which part:
--   Protocol   src/protocol.rs: `ClientMsg`, `ServerMsg`, `BroadcastEvent`. A text is the list of its
--              code points.
--   Vote       src/vote.rs: `VoteBoard`. The counters are 64-bit patterns that wrap. Vote/Race makes
--              each `fetch_add` a step of a relation between states, in which every client is either
--              outside `vote` or between its two additions; Vote/Counting counts the votes of such
--              clients, Vote/Snapshot tells what `snapshot` shows. The loads of one snapshot are
--              taken together; each of the four is exact by itself.
--   Room       src/room.rs: `Room` with its members, the log of what is sent, and the throttle
--              `broadcast_vote_throttled`, `schedule_vote_flush` and `flush_pending_vote_snapshot`,
--              each as one run (Room, Room/Members, Room/Throttle), and with every atomic operation
--              as a step (Room/Race, Room/Pending). Room/Refines compares the two, Room/Settle
--              and Room/Quiet are about the end of the steps. Room/Suite is the test of the file. A clock value is an
--              argument wherever the code reads the clock.
--   Client     src/client.rs: Client/Line is `read_line_bounded` over the chunks that `fill_buf`
--              gives, Client/Line/Spec what a bounded line is, and Client/Line/Chunks compares the
--              two. Client/Session is `handle_client`: `connect`, `handle_msg`, `serve` and
--              `disconnect` are its parts in their order, over what connections share, the `Hub`. Its
--              children follow one connection through any list of events: its votes, its chats, its
--              membership, its return, and the lines of a client whose messages are read as they were
--              written. Client/Line/Framing is `send` of src/tui.rs and `send_msg` of src/bot/mod.rs,
--              which write the lines that the server reads; Client/Session/Wire goes on from the
--              bytes to the votes that are counted. Client/Writer is the write task that
--              `handle_client` spawns.
--   Metrics    src/metrics.rs: `Metrics`, and the loop of `start_reporter`.
--   Server     src/server.rs: the loop of `run_with_listener` as a state machine over the events of
--              its `select!` and the ends of client tasks. Server/Capacity is about permits, handles
--              and ids, Server/Tasks about which tasks run, Server/Shutdown about Ctrl-C and the wait
--              for them. Server/Listen is the start of `run`, from the text of an address to a
--              listener.
--   Bot        src/bot/mod.rs: Bot/Rtt is `RttCounter`, Bot/Tally the vote integrity check, Bot/Kind
--              `BotType`, Bot/Ratio `RatioSpec` with its parser and display, Bot/Allocate `allocate`,
--              Bot/Recv `recv_until_count_with_timeout`, Bot/Connect `connect`, and Bot/Scenario the
--              two scenario runners with the report, where how a bot ends is an argument, for the
--              mixed runner with the tasks that never end, such as those of fickle bots at a
--              barrier that does not open; its child Single is the runner of one mode. Bot/Allocate/Order and Bot/Allocate/Fair are about
--              who gets the remainder. Bot/Echo is what src/bot/normal.rs and src/bot/spammer.rs send
--              and record, Bot/Echo/Runs their runs; Bot/Fickle is src/bot/fickle.rs, with the
--              server's view of it in Served and Wire and its barrier in Barrier; Bot/Quitter is
--              src/bot/quitter.rs and src/bot/ghost.rs. Bot/Suite holds the tests of src/bot/mod.rs
--              as functions into Bool: the unit tests, which are run, and the property tests, which
--              take what their strategies draw (Strategies); ReportParse is their
--              `parse_report_display`.
--   Strings    the parts of the standard library's `str` that src/bot/mod.rs and src/tui.rs call:
--              `trim`, `split`, `split_once`, `strip_prefix`, `parse` of unsigned numbers, and the
--              decimal display, `contains` and `lines`.
--   Tui        src/tui.rs: `AppState`, what the messages of the server and the keys do to it, the
--              commands, and the numbers and texts that a frame shows. Tui/Loop is `event_loop`, with
--              the server's view of it in Served and Wire; a round of it is not divided, and it
--              panics where its frame does. Tui/Render is what `render_chat`, `render_vote` and
--              `render_input` draw, or the panic of a sum or of `Gauge::ratio`, Tui/Render/Shown
--              what the sums and the gauges come to, Tui/Frame is `render`, over the splits of the
--              layout, and Tui/Run is `run`, over the operations on the terminal, which a panic
--              leaves as they are.
--   System     the running server of src/main.rs: the hub that `main` makes, and a relation of steps
--              in which any of the connected clients has its next event handled. System/Members (with
--              the invariant in System/Roster) and System/Votes hold in all its states;
--              System/Renamed and System/Terminals follow the members and the presence events through
--              a step, System/Tally counts the latter, and System/Shown is what a terminal shows.
--              System/Admission compares the steps with the accept loop of Server.
--   Main       src/main.rs: the commands with their defaults, and what `main` starts for each.
--   Base       tests on native numbers, the overflow check (Base/Checked), lists, maps as
--              association lists, and the lemmas on them.
--   Examples   the theorems at concrete inputs, and runs of the program's functions.
--
-- Numbers are natural numbers with the wrap-around of their width written out; where the code would
-- panic on overflow in a checking build, an argument `checks` tells which build is meant
-- (Base/Checked). Subtraction is written where the code saturates, and the other cases are written
-- out. All loops are structural recursion, on the list of events, chunks, parts or bots, or on the
-- remainder that is distributed, or on the attempts that are left, so that no fuel is needed; the
-- proof of Room/Settle recurs on a bound on the steps that are left.
--
-- Parameters stand for what is not in the repository: `Codec` for JSON and for the lossy reading of
-- UTF-8, `Floats` for the operations of `f32`, `order` for the order in which a hash map is iterated,
-- `per_second` for the reporter's rate, `fixed_2` for the print of a number with two places,
-- `Operations` for the terminal, `Ratatui` for the splits of a frame and the test of
-- `Gauge::ratio`, `Sockets` for the sockets.
--
-- Not modelled: the sockets and the runtime of tokio, with the delivery by its broadcast channel, of
-- which what a receiver gets is an argument; when tokio's barrier opens, which is one too; logging; the
-- drawing of the widgets by ratatui; the reading of the arguments by clap; the waits
-- of the bots. In System the events of one connection are undivided; the moments inside them are those
-- of Vote/Race and Room/Race.
pub mod Base
pub mod Protocol
pub mod Vote
pub mod Room
pub mod Client
pub mod Metrics
pub mod Server
pub mod Bot
pub mod Strings
pub mod Tui
pub mod System
pub mod Main
pub mod Examples
