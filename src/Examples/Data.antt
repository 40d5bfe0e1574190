-- ===== src/Examples/Data.antt =====
-- Concrete codecs, clocks and states for the examples.
use rust_multichat_server.Base.{
  ℕ, zero, suc, ◌≡◌, refl, ◌*◌, ◌/◌, Option, none, some, false, List, [], ◌∷◌, if◌then◌else◌, ◌==◌,
  length,
}
use rust_multichat_server.Protocol.{Text, Floats, ClientMsg, chat, set_nick, vote, unvote}
use rust_multichat_server.Room.{Room}
use rust_multichat_server.Client.Line.{Bytes, line}
use rust_multichat_server.Client.Line.Framing.{Fits}
use rust_multichat_server.Client.Session.{Codec, Hub, Times, Event, reads, decode}

-- Percentages as numbers from 0 to 100; a division by 0 gives 0.
abbrev pub percent : Floats ℕ
percent = record { zero_f32 = 0; of_u64 = λ n. n; div = λ a b. if b == 0 then 0 else a * 100 / b }

-- `u` is an unvote, `v` and two more letters a vote for option 2, `n` and a name a nick, `c` and a
-- text a chat; any other text is no message.
abbrev pub read_msg : Text → Option ClientMsg
read_msg [] = none
read_msg (c ∷ s) =
    if c == b'u'
    then some unvote
    else if c == b'v'
    then some (vote (length s))
    else if c == b'n'
    then some (set_nick s)
    else if c == b'c'
    then some (chat s 7)
    else none

abbrev pub ascii : Codec ℕ
ascii = record { from_utf8_lossy = λ bs. bs; from_str = read_msg; floats = percent }

abbrev pub clock : Times
clock = record { now_ms = 1000; schedule_ms = 1001 }

-- A vote, a change of it, a nick, a line that is no message, and a chat.
abbrev pub talk : List Event
talk =
    reads (line (b'v' ∷ b'x' ∷ [])) clock
    ∷ reads (line (b'v' ∷ b'x' ∷ b'x' ∷ [])) clock
    ∷ reads (line (b'n' ∷ b'b' ∷ b'o' ∷ [])) clock
    ∷ reads (line (b'?' ∷ [])) clock
    ∷ reads (line (b'c' ∷ b'h' ∷ b'i' ∷ [])) clock
    ∷ []

abbrev pub room : Room ℕ
room = record {
  capacity = 16;
  sent = [];
  clients = (7, record { id = 7; name = none }) ∷ [];
  last_vote_broadcast_ms = 900;
  pending_vote_broadcast = none;
  vote_flush_scheduled = false;
  timers = [];
}

abbrev pub hub : Hub ℕ
hub = record {
  room = room;
  board = record { counts = λ _. 3 };
  metrics = record { recv_count = 0; sent_count = 0 };
}

-- A codec that keeps every message: its kind, and its fields as they are.
abbrev pub write_numbers : ClientMsg → List ℕ
write_numbers unvote = 0 ∷ []
write_numbers (vote option) = 1 ∷ option ∷ []
write_numbers (set_nick name) = 2 ∷ name
write_numbers (chat text client_ts) = 3 ∷ client_ts ∷ text

abbrev pub read_numbers : Text → Option ClientMsg
read_numbers [] = none
read_numbers (zero ∷ s) = some unvote
read_numbers (suc zero ∷ []) = none
read_numbers (suc zero ∷ option ∷ s) = some (vote option)
read_numbers (suc (suc zero) ∷ name) = some (set_nick name)
read_numbers (suc (suc (suc n)) ∷ []) = none
read_numbers (suc (suc (suc n)) ∷ client_ts ∷ text) = some (chat text client_ts)

abbrev pub numbers : Codec ℕ
numbers = record { from_utf8_lossy = λ bs. bs; from_str = read_numbers; floats = percent }

pub reads_back : (m : ClientMsg) → decode numbers (write_numbers m) ≡ some m
reads_back unvote = refl
reads_back (vote option) = refl
reads_back (set_nick name) = refl
reads_back (chat text client_ts) = refl

abbrev pub encode : ClientMsg → Option Bytes
encode m = some (write_numbers m)

pub encode-read :
    (m : ClientMsg) (json : Bytes) → encode m ≡ some json → decode numbers json ≡ some m
encode-read m json e = let same : write_numbers m ≡ json = cc in rw (← same) (reads_back m)

pub Fits-some : (n : ℕ) (l json : Bytes) → Fits n l → some l ≡ some json → Fits n json
Fits-some n l json f e = let same : l ≡ json = cc in rw (← same) f
