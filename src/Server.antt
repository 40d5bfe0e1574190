-- ===== src/Server.antt =====
-- src/server.rs: the accept loop of `run_with_listener`. The events are what its `select!` gives,
-- and the ends of client tasks, at which their permits return to the semaphore.
pub mod Handles
pub mod Capacity
pub mod Tasks
pub mod Shutdown
pub mod Listen
use rust_multichat_server.Base.{
  ℕ, suc, ◌+◌, ◌-◌, ◌%◌, ◌^◌, ◌≡◌, refl, Bool, true, false, not, ◌&&◌, List, [], ◌∷◌, ◌++◌, codes,
  if◌then◌else◌, ltb, ◌==◌, keep,
}
use rust_multichat_server.Protocol.{Text, ServerMsg, error, BroadcastEvent, shutdown}
use rust_multichat_server.Room.{Room, send}

abbrev pub max_connections : ℕ
max_connections = 500

abbrev pub listen_backlog : ℕ
listen_backlog = 8192

-- The `JoinHandle` of a client task.
pub record Handle : Type 0 where
  pub id : ℕ
  pub is_finished : Bool

pub record Server (F : Type 0) : Type 0 where
  pub available_permits : ℕ
  pub next_id : ℕ
  pub handles : List Handle
  pub accepting : Bool
  pub room : Room F
  pub refusals : List (ServerMsg F)  -- the lines sent to refused connections

pub data Event : Type 0 where
  accepted : Event
  accept_failed : Event
  ctrl_c : Event
  task_ended : (id : ℕ) → Event

-- "서버가 가득 찼습니다 (최대 500인)".
unfoldable pub full_msg : Text
full_msg = codes "서버가 가득 찼습니다 (최대 500인)"

abbrev pub is_running : Handle → Bool
is_running h = not h.is_finished

-- The task with this id is finished.
unfoldable pub finish : ℕ → List Handle → List Handle
finish id [] = []
finish id (h ∷ hs) =
    if h.id == id then record h { is_finished = true } ∷ finish id hs else h ∷ finish id hs

-- Whether the task with this id is there and still runs.
unfoldable pub runs : ℕ → List Handle → Bool
runs id [] = false
runs id (h ∷ hs) = if h.id == id then is_running h else runs id hs

-- `for handle in handles { handle.await }` has come through.
unfoldable pub all_finished : List Handle → Bool
all_finished [] = true
all_finished (h ∷ hs) = h.is_finished && all_finished hs

module _ {F : Type 0} where
  unfoldable pub start : Room F → Server F
  start room = record {
    available_permits = max_connections;
    next_id = 1;
    handles = [];
    accepting = true;
    room = room;
    refusals = [];
  }

  unfoldable pub on_accept : Server F → Server F
  unfolding full_msg
  on_accept s =
      if ltb 0 s.available_permits
      then record s {
        available_permits = s.available_permits - 1;
        next_id = (s.next_id + 1) % 2 ^ 64;
        handles =
            keep is_running (s.handles ++ record { id = s.next_id; is_finished = false } ∷ []);
      }
      else record s { refusals = s.refusals ++ error full_msg ∷ [] }

  unfoldable pub on_ctrl_c : Server F → Server F
  on_ctrl_c s = record s { accepting = false; room = send shutdown s.room }

  -- The task is dropped with its permit.
  unfoldable pub on_task_ended : ℕ → Server F → Server F
  unfolding finish runs
  on_task_ended id s =
      if runs id s.handles
      then record s { available_permits = s.available_permits + 1; handles = finish id s.handles }
      else s

  -- After the break only the ends of the client tasks matter.
  unfoldable pub step : Event → Server F → Server F
  unfolding on_accept on_ctrl_c on_task_ended
  step accepted s = if s.accepting then on_accept s else s
  step accept_failed s = s
  step ctrl_c s = if s.accepting then on_ctrl_c s else s
  step (task_ended id) s = on_task_ended id s

  unfoldable pub run : List Event → Server F → Server F
  unfolding step
  run [] s = s
  run (e ∷ es) s = run es (step e s)

  unfoldable pub has_returned : Server F → Bool
  unfolding all_finished
  has_returned s = not s.accepting && all_finished s.handles
