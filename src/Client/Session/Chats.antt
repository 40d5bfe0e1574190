-- ===== src/Client/Session/Chats.antt =====
-- What one connection says in the room, and what the metrics count of it.
use rust_multichat_server.Base.{
  ℕ, ◌+◌, ◌%◌, ◌^◌, ◌≡◌, refl, sym, ap, ◌∙◌, Bool, true, false, Option, none, some, List, [], ◌∷◌,
  ◌++◌, append-nil, append_assoc, arith, length, keep, keep-append, length-append,
}
use rust_multichat_server.Protocol.{
  Text, ClientMsg, set_nick, vote, unvote, ServerMsg, vote_snapshot, BroadcastEvent, server,
}
use rust_multichat_server.Protocol
use rust_multichat_server.Room
use rust_multichat_server.Room.{Room}
use rust_multichat_server.Metrics
use rust_multichat_server.Client.Line.{line, end_of_stream, io_error}
use rust_multichat_server.Client.Session.{
  Hub, Session, Codec, Times, Event, reads, write_task_ended, take_back, handle_line, decode, serve,
  connect,
}
use rust_multichat_server.Client.Session.Votes.{served}

abbrev pub next_nick : Option ClientMsg → Option Text → Option Text
next_nick (some (set_nick name)) nick = some name
next_nick _ nick = nick

module _ {F : Type 0} where
  abbrev pub is_chat : BroadcastEvent F → Bool
  is_chat (server (Protocol.ServerMsg.chat from nick text sent_at client_ts)) = true
  is_chat _ = false

  -- The chats that a message gives, said by `id` under `nick`, and the nick after it.
  abbrev pub said : ℕ → Times → Option ClientMsg → Option Text → List (BroadcastEvent F)
  said id t (some (Protocol.ClientMsg.chat text client_ts)) nick =
      server (Protocol.ServerMsg.chat id nick text t.now_ms client_ts) ∷ []
  said id t _ nick = []

  abbrev pub all_said : Codec F → ℕ → List Event → Option Text → List (BroadcastEvent F)
  all_said codec id [] nick = []
  all_said codec id (reads (line raw) t ∷ es) nick =
      said id t (decode codec raw) nick ++ all_said codec id es (next_nick (decode codec raw) nick)
  all_said codec id (reads end_of_stream t ∷ es) nick = []
  all_said codec id (reads io_error t ∷ es) nick = []
  all_said codec id (write_task_ended ∷ es) nick = []

  abbrev pub chats : Room F → List (BroadcastEvent F)
  chats r = keep is_chat r.sent

  throttled-chats :
      (counts : List ℕ) (percentages : List F) (now_ms schedule_ms : ℕ) (r : Room F)
      → chats
          (Room.broadcast_vote_throttled (vote_snapshot counts percentages) now_ms schedule_ms r)
        ≡ chats r
  unfolding Room.broadcast_vote_throttled
  throttled-chats counts percentages now_ms schedule_ms r = ground (
    arith,
    keep-append is_chat r.sent (server (vote_snapshot counts percentages) ∷ []),
    append-nil (chats r),
  )

-- What a step of a connection keeps and adds.
record Says {F : Type 0} (c c' : Session × Hub F) (new : List (BroadcastEvent F)) : Type 0 where
  same_id : c'.0.id ≡ c.0.id
  more_chats : chats c'.1.room ≡ chats c.1.room ++ new
  more_sent : c'.1.metrics.sent_count % 2 ^ 64 ≡ (c.1.metrics.sent_count + length new) % 2 ^ 64

module _ {F : Type 0} (codec : Codec F) where
  take_back-chats :
      (held : Option ℕ) (t : Times) (h : Hub F)
      → (chats (take_back codec held t h).room ≡ chats h.room)
        × ((take_back codec held t h).metrics ≡ h.metrics)
  unfolding take_back
  take_back-chats none t h = (refl, refl)
  take_back-chats (some p) t h = (throttled-chats _ _ t.now_ms t.schedule_ms h.room, refl)

  handle_line-Says :
      (msg : Option ClientMsg) (t : Times) (c : Session × Hub F)
      → Says c (handle_line codec msg t c) (said c.0.id t msg c.0.nick)
  unfolding handle_line
  handle_line-Says none t (s, h) = record {
    same_id = refl;
    more_chats = sym (append-nil _);
    more_sent = omega arith;
  }
  handle_line-Says (some (set_nick name)) t (s, h) =
      unfold Room.set_nick Metrics.record_recv in
      record { same_id = refl; more_chats = sym (append-nil _); more_sent = omega arith }
  handle_line-Says (some (Protocol.ClientMsg.chat text ts)) t (s, h) =
      unfold Room.broadcast Metrics.record_recv Metrics.record_sent in
      record {
        same_id = refl;
        more_chats = keep-append is_chat h.room.sent _;
        more_sent = omega arith;
      }
  handle_line-Says (some (vote option)) t (s, h) =
      unfold Metrics.record_recv in
      record {
        same_id = refl;
        more_chats = throttled-chats _ _ t.now_ms t.schedule_ms h.room ∙ sym (append-nil _);
        more_sent = omega arith;
      }
  handle_line-Says (some unvote) t (s, h) =
      let counted = record h { metrics = Metrics.record_recv h.metrics } in
      let (same_chats, same_metrics) = take_back-chats s.current_vote t counted in
      record {
        same_id = refl;
        more_chats = same_chats ∙ sym (append-nil _);
        more_sent =
            ap (λ (m : Metrics.Metrics). m.sent_count % 2 ^ 64) same_metrics
            ∙ unfold Metrics.record_recv in omega arith;
      }

  pub handle_line-next_nick :
      (msg : Option ClientMsg) (t : Times) (c : Session × Hub F)
      → (handle_line codec msg t c).0.nick ≡ next_nick msg c.0.nick
  unfolding handle_line
  handle_line-next_nick none t (s, h) = refl
  handle_line-next_nick (some (set_nick name)) t (s, h) = refl
  handle_line-next_nick (some (Protocol.ClientMsg.chat text ts)) t (s, h) = refl
  handle_line-next_nick (some (vote option)) t (s, h) = refl
  handle_line-next_nick (some unvote) t (s, h) = refl

  Says-nil : (c : Session × Hub F) → Says c c []
  Says-nil c = record { same_id = refl; more_chats = sym (append-nil _); more_sent = omega arith }

  Says-append :
      {a b c : Session × Hub F} (xs ys : List (BroadcastEvent F))
      → Says a b xs
      → Says b c ys
      → Says a c (xs ++ ys)
  Says-append {a} xs ys f g = record {
    same_id = g.same_id ∙ f.same_id;
    more_chats =
        g.more_chats
        ∙ ap (λ (l : List (BroadcastEvent F)). l ++ ys) f.more_chats
        ∙ append_assoc (chats a.1.room) xs ys;
    more_sent = omega (arith, f.more_sent, g.more_sent, length-append xs ys);
  }

  serve-Says :
      (es : List Event) (c : Session × Hub F)
      → Says c (serve codec es c).1 (all_said codec c.0.id es c.0.nick)
  unfolding serve
  serve-Says [] c = Says-nil c
  serve-Says (reads (line raw) t ∷ es) c =
      let msg = decode codec raw in
      let first = handle_line-Says msg t c in
      let ih = serve-Says es (handle_line codec msg t c) in
      Says-append _ _ first (rw (first.same_id, handle_line-next_nick msg t c) at ih)
  serve-Says (reads end_of_stream t ∷ es) c = Says-nil c
  serve-Says (reads io_error t ∷ es) c = Says-nil c
  serve-Says (write_task_ended ∷ es) c = Says-nil c

-- Until the end of the connection, the chats that reach the room from a client are its chat
-- messages in their order and no other, each with the client's id, the nick that it had last set
-- before the message, the clock at the message, and the time stamp of the client given back
-- unchanged; other messages add no chat. `sent_count` grows by their number, modulo 2 ^ 64.
pub serve_chats :
    {F : Type 0} (codec : Codec F) (id : ℕ) (events : List Event) (h : Hub F)
    → (chats (served codec id events h).1.room ≡ chats h.room ++ all_said codec id events none)
      × ((served codec id events h).1.metrics.sent_count % 2 ^ 64
          ≡ (h.metrics.sent_count + length (all_said codec id events none)) % 2 ^ 64)
unfolding connect Room.join
serve_chats codec id events h =
    let c = connect id h in
    let s = serve-Says codec events (c.1, c.2) in
    (
      s.more_chats
          ∙ ap (λ (l : List (BroadcastEvent _)). l ++ all_said codec id events none)
              (keep-append is_chat h.room.sent _ ∙ append-nil _),
      s.more_sent,
    )
