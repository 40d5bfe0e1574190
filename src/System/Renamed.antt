-- ===== src/System/Renamed.antt =====
-- What the handling of a line does to the members of the room.
use mathlib.Core.Option
use rust_multichat_server.Base.{
  ℕ, ◌≡◌, ap, refl, Option, none, some, List, length, lookup, Unique, Unique-modify, length-modify,
  lookup-modify, if◌then◌else◌, ◌==◌, Option-cases, inl, inr, arith,
}
use rust_multichat_server.Protocol.{ClientMsg, set_nick, vote, unvote}
use rust_multichat_server.Protocol
use rust_multichat_server.Room
use rust_multichat_server.Room.{ClientMeta, Room, client_count, join}
use rust_multichat_server.Client.Session.{Session, Hub, Codec, Times, handle_line}
use rust_multichat_server.Client.Session.Membership.{throttled-clients, take_back-clients}
use rust_multichat_server.Client.Session.Chats.{next_nick}

-- The members `m'` are `m` after the message of client `id`: only its name can have changed.
pub record Renamed (msg : Option ClientMsg) (id : ℕ) (m m' : List (ℕ × ClientMeta)) : Type 0 where
  pub looked_up :
      (k : ℕ)
      → lookup k m' ≡ (
          if id == k
          then Option.map {A = ClientMeta}
              (λ c. record c { name = next_nick msg c.name })
              (lookup k m)
          else lookup k m)
  pub same_number : length m' ≡ length m
  pub same_unique : Unique m → Unique m'

unchanged :
    (msg : Option ClientMsg) (id : ℕ) (m m' : List (ℕ × ClientMeta))
    → ((n : Option (List ℕ)) → next_nick msg n ≡ n)
    → m' ≡ m
    → Renamed msg id m m'
unchanged msg id m m' same e = record {
  looked_up = λ k. rw e (elim (Option-cases (lookup k m)) [
    | inl n ↦ ground arith
    | inr (c, s) ↦ ground (arith, same c.name)
  ]);
  same_number = ap length e;
  same_unique = λ u. rw e u;
}

module _ {F : Type 0} (codec : Codec F) where
  pub handle_line-Renamed :
      (msg : Option ClientMsg) (t : Times) (c : Session × Hub F)
      → ((handle_line codec msg t c).0.id ≡ c.0.id)
        × Renamed msg c.0.id c.1.room.clients (handle_line codec msg t c).1.room.clients
  unfolding handle_line
  handle_line-Renamed none t (s, h) = (refl, unchanged none _ _ _ (λ n. refl) refl)
  handle_line-Renamed (some (set_nick name)) t (s, h) =
      unfold Room.set_nick in
      (
        refl,
        record {
          looked_up = λ k. lookup-modify s.id k _ h.room.clients;
          same_number = length-modify s.id _ h.room.clients;
          same_unique = Unique-modify s.id _ h.room.clients;
        },
      )
  handle_line-Renamed (some (Protocol.ClientMsg.chat text ts)) t (s, h) =
      unfold Room.broadcast in
      (refl, unchanged (some (Protocol.ClientMsg.chat text ts)) _ _ _ (λ n. refl) refl)
  handle_line-Renamed (some (vote option)) t (s, h) = (
    refl,
    unchanged (some (vote option)) _ _ _ (λ n. refl)
        (throttled-clients _ t.now_ms t.schedule_ms h.room),
  )
  handle_line-Renamed (some unvote) t (s, h) =
      (refl, unchanged (some unvote) _ _ _ (λ n. refl) (take_back-clients codec s.current_vote t _))
