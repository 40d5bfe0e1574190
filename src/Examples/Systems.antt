-- ===== src/Examples/Systems.antt =====
-- The running server with two clients, and what a terminal sees of it.
use rust_multichat_server.Base.{
  ℕ, ◌+◌, ◌≡◌, refl, true, false, none, some, List, [], ◌∷◌, ◌++◌, Option, set, remove_at, drop,
  length, from_fn, arith,
}
use rust_multichat_server.Protocol.{n_options, BroadcastEvent, server, shutdown, presence, welcome}
use rust_multichat_server.Vote.{snapshot}
use rust_multichat_server.Room.{join, client_count}
use rust_multichat_server.Client.Session.{Session, connect, disconnect, handle_line, decode}
use rust_multichat_server.Client.Line.{Bytes}
use rust_multichat_server.Client.Writer.{messages, write_task, in_time, write_task-in_time}
use rust_multichat_server.Tui
use rust_multichat_server.Tui.{apply_all, title_count}
use rust_multichat_server.System.{
  System, main_hub, boot, admit, receive, depart, Reach, here, later,
}
use rust_multichat_server.System.Roster.{Inv}
use rust_multichat_server.System.Members.{Reach-Inv}
use rust_multichat_server.System.Votes.{voters_of, snapshot-voters_of}
use rust_multichat_server.System.Shown.{title_count-client_count, late_join-title_count}
use rust_multichat_server.Base.{count_by, get_elem?}
use rust_multichat_server.Server.{Event, run, start, is_running, runs, max_connections}
use rust_multichat_server.System.Admission.{admission}
use rust_multichat_server.Examples.Data.{ascii, percent, clock, room}

abbrev admitted : System ℕ → System ℕ
admitted s = record s {
  hub = (connect s.next_id s.hub).2;
  next_id = s.next_id + 1;
  sessions = (connect s.next_id s.hub).1 ∷ s.sessions;
}

abbrev received : ℕ → Bytes → Session → System ℕ → System ℕ
received j raw c s = record s {
  hub = (handle_line ascii (decode ascii raw) clock (c, s.hub)).1;
  sessions = set s.sessions j (handle_line ascii (decode ascii raw) clock (c, s.hub)).0;
}

abbrev departed : ℕ → Session → System ℕ → System ℕ
departed j c s = record s {
  hub = disconnect ascii clock (c, s.hub);
  sessions = remove_at s.sessions j;
}

abbrev client : ℕ → Option ℕ → Session
client id current_vote = record { id = id; current_vote = current_vote; nick = none }

-- Three clients come, two of them vote, and one of the two leaves.
abbrev three : System ℕ
three = admitted (admitted (admitted boot))

abbrev voted : System ℕ
voted = received 2 (b'v' ∷ b'x' ∷ []) (client 1 none) (received 0 (b'v' ∷ []) (client 3 none) three)

abbrev fewer : System ℕ
fewer = departed 0 (client 3 (some 0)) voted

boot-Reach : Reach ascii boot (boot {F = ℕ})
boot-Reach = here

three-Reach : Reach ascii boot three
unfolding connect main_hub
three-Reach =
    later
      (later (later here (admit (omega arith) (omega arith))) (admit (omega arith) (omega arith)))
      (admit (omega arith) (omega arith))

three-fewer : Reach ascii three fewer
unfolding connect handle_line main_hub
three-fewer =
    later
      (later (later here (receive 0 (b'v' ∷ []) clock refl))
        (receive 2 (b'v' ∷ b'x' ∷ []) clock refl))
      (depart 0 clock refl)

boot-fewer : Reach ascii boot fewer
unfolding connect handle_line main_hub
boot-fewer =
    later
      (later (later three-Reach (receive 0 (b'v' ∷ []) clock refl))
        (receive 2 (b'v' ∷ b'x' ∷ []) clock refl))
      (depart 0 clock refl)

snapshot-voters_of_example : snapshot fewer.hub.board ≡ from_fn n_options (voters_of fewer.sessions)
snapshot-voters_of_example = snapshot-voters_of ascii boot-fewer

Reach-Inv_example : Inv fewer
Reach-Inv_example = Reach-Inv ascii boot-fewer

title_count-client_count_example :
    title_count true (
      apply_all
        ((connect three.next_id three.hub).0
          ∷ (write_task (in_time (drop (length three.hub.room.sent) fewer.hub.room.sent))).0)
        (Tui.new percent))
    ≡ some (client_count fewer.hub.room)
title_count-client_count_example =
    title_count-client_count ascii percent true three-Reach three-fewer

late_join-title_count_example :
    let between = (join 9 room).0 in
    let (joined, peer_count) = join 8 between in
    title_count true (
      apply_all
        (welcome peer_count ∷ (write_task (in_time (drop (length room.sent) joined.sent))).0)
        (Tui.new percent))
    ≡ some (client_count joined + 1)
late_join-title_count_example =
    late_join-title_count percent true 8 9 room refl refl (λ e. absurd (omega (arith, e)))
      (omega arith)

-- A departure before the shutdown, and one after it.
abbrev events : List (BroadcastEvent ℕ)
events = server (presence 2 false) ∷ []

write_task-in_time_example :
    (write_task (in_time events) ≡ (messages events, false))
    × (write_task (in_time (events ++ shutdown ∷ events)) ≡ (messages events, true))
write_task-in_time_example = write_task-in_time events events tt

admission_example :
    (es : List Event) × let v = run es (start (main_hub {F = ℕ}).room) in
      (v.accepting ≡ true)
      × (v.refusals ≡ [])
      × (v.next_id ≡ fewer.next_id)
      × (count_by is_running v.handles ≡ length fewer.sessions)
      × (v.available_permits + length fewer.sessions ≡ max_connections)
      × ((j : ℕ) (c : Session) → get_elem? fewer.sessions j ≡ some c → runs c.id v.handles ≡ true)
admission_example = admission ascii boot-fewer
