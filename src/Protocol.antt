-- ===== src/Protocol.antt =====
-- src/protocol.rs: the messages, and the events of the broadcast channel.
use rust_multichat_server.Base.{ℕ, Bool, Option, List}

-- A `String` as its code points.
abbrev pub Text : Type 0
Text = List ℕ

abbrev pub n_options : ℕ
n_options = 4

abbrev pub max_line_len : ℕ
max_line_len = 65536

pub data ClientMsg : Type 0 where
  chat : (text : Text) (client_ts : ℕ) → ClientMsg
  set_nick : (name : Text) → ClientMsg
  vote : (option : ℕ) → ClientMsg
  unvote : ClientMsg

-- `F` is the type of the percentages, `f32` in the source.
pub data ServerMsg (F : Type 0) : Type 0 where
  welcome : (peer_count : ℕ) → ServerMsg F
  chat : (from : ℕ) (nick : Option Text) (text : Text) (sent_at : ℕ) (client_ts : ℕ) → ServerMsg F
  vote_snapshot : (counts : List ℕ) (percentages : List F) → ServerMsg F
  presence : (id : ℕ) (joined : Bool) → ServerMsg F
  error : (msg : Text) → ServerMsg F

pub data BroadcastEvent (F : Type 0) : Type 0 where
  server : ServerMsg F → BroadcastEvent F
  shutdown : BroadcastEvent F

-- The operations of `f32` that the server uses.
pub record Floats (F : Type 0) : Type 0 where
  pub zero_f32 : F
  pub of_u64 : ℕ → F
  pub div : F → F → F
