-- ===== src/Client/Session/Membership.antt =====
-- The place of one connection among the members of the room.
use rust_multichat_server.Base.{
  ℕ, ◌≡◌, refl, sym, ap, ◌∙◌, Bool, true, false, Option, none, some, List, [], ◌∷◌, ◌++◌,
  lookup-insert, ==_refl, arith, lookup, remove,
}
use rust_multichat_server.Protocol.{
  ClientMsg, chat, set_nick, vote, unvote, ServerMsg, server, presence,
}
use rust_multichat_server.Room
use rust_multichat_server.Room.{Room, ClientMeta}
use rust_multichat_server.Base.{remove-insert, remove-modify}
use rust_multichat_server.Client.Line.{line, end_of_stream, io_error}
use rust_multichat_server.Client.Session.{
  Hub, Session, Codec, Times, Event, reads, write_task_ended, take_back, handle_msg, handle_line,
  decode, serve, disconnect, connect, close, handle_client, Outcome, returned, failed, hub_of,
}

-- Connection `id` is served, and the members other than it are `others`.
abbrev pub Serves : {F : Type 0} → ℕ → List (ℕ × ClientMeta) → Session × Hub F → Type 0
Serves id others c = (c.0.id ≡ id) × (remove id c.1.room.clients ≡ others)

module _ {F : Type 0} where
  pub throttled-clients :
      (msg : ServerMsg F) (now_ms schedule_ms : ℕ) (r : Room F)
      → (Room.broadcast_vote_throttled msg now_ms schedule_ms r).clients ≡ r.clients
  unfolding Room.broadcast_vote_throttled
  throttled-clients msg now_ms schedule_ms r = ground arith

module _ {F : Type 0} (codec : Codec F) where
  pub take_back-clients :
      (held : Option ℕ) (t : Times) (h : Hub F)
      → (take_back codec held t h).room.clients ≡ h.room.clients
  unfolding take_back
  take_back-clients none t h = refl
  take_back-clients (some p) t h = throttled-clients _ t.now_ms t.schedule_ms h.room

module _ {F : Type 0} (codec : Codec F) (id : ℕ) (others : List (ℕ × ClientMeta)) where
  handle_msg-Serves :
      (msg : ClientMsg) (t : Times) (c : Session × Hub F)
      → Serves id others c
      → Serves id others (handle_msg codec msg t c)
  unfolding handle_msg Room.set_nick Room.broadcast
  handle_msg-Serves (set_nick name) t (s, h) (i, o) =
      (i, rw i (remove-modify id _ h.room.clients ∙ o))
  handle_msg-Serves (chat text ts) t (s, h) v = v
  handle_msg-Serves (vote option) t (s, h) (i, o) =
      (i, ap (remove id) (throttled-clients _ t.now_ms t.schedule_ms h.room) ∙ o)
  handle_msg-Serves unvote t (s, h) (i, o) =
      (i, ap (remove id) (take_back-clients codec s.current_vote t h) ∙ o)

  handle_line-Serves :
      (msg : Option ClientMsg) (t : Times) (c : Session × Hub F)
      → Serves id others c
      → Serves id others (handle_line codec msg t c)
  unfolding handle_line
  handle_line-Serves none t (s, h) v = v
  handle_line-Serves (some msg) t (s, h) v = handle_msg-Serves msg t _ v

  serve-Serves :
      (es : List Event) (c : Session × Hub F)
      → Serves id others c
      → Serves id others (serve codec es c).1
  unfolding serve
  serve-Serves [] c v = v
  serve-Serves (reads (line raw) t ∷ es) c v =
      serve-Serves es _ (handle_line-Serves (decode codec raw) t c v)
  serve-Serves (reads end_of_stream t ∷ es) c v = v
  serve-Serves (reads io_error t ∷ es) c v = v
  serve-Serves (write_task_ended ∷ es) c v = v

  disconnect-clients :
      (t : Times) (c : Session × Hub F)
      → Serves id others c
      → (disconnect codec t c).room.clients ≡ others
  unfolding disconnect Room.leave
  disconnect-clients t (s, h) (i, o) =
      rw i (ap (remove id) (take_back-clients codec s.current_vote t h) ∙ o)

  close-clients :
      (t : Times) (r : Bool × (Session × Hub F)) (h : Hub F)
      → Serves id others r.1
      → close codec t r ≡ returned h
      → h.room.clients ≡ others
  unfolding close
  close-clients t (true, c) h v e =
      ap (λ (o : Outcome F). (hub_of o).room.clients) (sym e) ∙ disconnect-clients t c v
  close-clients t (false, c) h v e = absurd (cc)

-- A connection whose id is new leaves the list of members as it found it, whatever the client
-- sends and however the connection ends, once its handler has returned.
pub handle_client_restores_members :
    {F : Type 0} (codec : Codec F) (id : ℕ) (events : List Event) (t : Times) (h h' : Hub F)
    → lookup id h.room.clients ≡ none
    → handle_client codec id true events t h ≡ returned h'
    → h'.room.clients ≡ h.room.clients
unfolding handle_client connect Room.join
handle_client_restores_members codec id events t h h' fresh e =
    close-clients codec id h.room.clients t _ h'
      (serve-Serves codec id h.room.clients events _
        (refl, remove-insert id _ h.room.clients fresh))
      e

-- If the welcome line cannot be written, the handler returns at once and never leaves the room:
-- the client stays a member, and no departure is announced.
pub failed_welcome_keeps_member :
    {F : Type 0} (codec : Codec F) (id : ℕ) (events : List Event) (t : Times) (h h' : Hub F)
    → handle_client codec id false events t h ≡ failed h'
    → (lookup id h'.room.clients ≡ some (record { id = id; name = none }))
      × (h'.room.sent ≡ h.room.sent ++ server (presence id true) ∷ [])
unfolding handle_client connect Room.join
failed_welcome_keeps_member codec id events t h h' e =
    rw (← ap hub_of e) (rw (lookup-insert, ==_refl id), refl)
