-- ===== src/System.antt =====
-- The running server of src/main.rs, src/server.rs and src/client.rs: the room, the board and the
-- metrics that connections share, and the sessions of the clients that are connected. A step is the
-- handling of one event of one connection, undivided; the moments inside a change of the board and
-- inside the throttle are those of Vote/Race and Room/Race.
pub mod Renamed
pub mod Roster
pub mod Members
pub mod Votes
pub mod Tally
pub mod Terminals
pub mod Shown
pub mod Admission
use rust_multichat_server.Base.{
  ℕ, zero, suc, ◌+◌, ◌^◌, ◌<◌, ◌≡◌, none, some, List, [], ◌∷◌, length, get_elem?, set, remove_at,
}
use rust_multichat_server.Vote
use rust_multichat_server.Room
use rust_multichat_server.Metrics
use rust_multichat_server.Client.Line.{Bytes}
use rust_multichat_server.Client.Session.{
  Hub, Session, Codec, Times, connect, handle_line, decode, disconnect,
}
use rust_multichat_server.Server.{max_connections}

-- `stranded` counts the clients whose welcome line could not be written.
pub record System (F : Type 0) : Type 0 where
  pub hub : Hub F
  pub next_id : ℕ
  pub sessions : List Session
  pub stranded : ℕ

module _ {F : Type 0} where
  -- The hub that `main` makes for the server.
  unfoldable pub main_hub : Hub F
  unfolding Room.new Vote.new Metrics.new
  main_hub = record { room = Room.new; board = Vote.new; metrics = Metrics.new }

  abbrev pub boot : System F
  boot = record { hub = main_hub; next_id = 1; sessions = []; stranded = 0 }

module _ {F : Type 0} (codec : Codec F) where
  -- A client is admitted while fewer than 500 are served; ids are taken from a counter that never
  -- comes near its end. What a client subscribes to begins where it joins the room: the moment
  -- between the two is the subject of late_join-title_count.
  pub data Step (s : System F) : System F → Type 0 where
    admit :
        length s.sessions < max_connections
        → s.next_id < 2 ^ 63
        → Step s (record s {
          hub = (connect s.next_id s.hub).2;
          next_id = s.next_id + 1;
          sessions = (connect s.next_id s.hub).1 ∷ s.sessions;
        })
    welcome_fails :
        length s.sessions < max_connections
        → s.next_id < 2 ^ 63
        → Step s (record s {
          hub = (connect s.next_id s.hub).2;
          next_id = s.next_id + 1;
          stranded = s.stranded + 1;
        })
    receive :
        (j : ℕ) (raw : Bytes) (t : Times) {c : Session}
        → get_elem? s.sessions j ≡ some c
        → Step s (record s {
          hub = (handle_line codec (decode codec raw) t (c, s.hub)).1;
          sessions = set s.sessions j (handle_line codec (decode codec raw) t (c, s.hub)).0;
        })
    depart :
        (j : ℕ) (t : Times) {c : Session}
        → get_elem? s.sessions j ≡ some c
        → Step s
            (record s { hub = disconnect codec t (c, s.hub); sessions = remove_at s.sessions j })
    flush :
        (now_ms : ℕ)
        → Step s (record s {
          hub = record (s.hub) { room = Room.flush_pending_vote_snapshot now_ms s.hub.room };
        })

  -- What can come after `s`.
  pub data Reach (s : System F) : System F → Type 0 where
    here : Reach s s
    later : {t u : System F} → Reach s t → Step t u → Reach s u
