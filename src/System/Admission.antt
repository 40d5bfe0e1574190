-- ===== src/System/Admission.antt =====
-- The accept loop of src/server.rs beside the running server: which of its events go with a step, and
-- that its permits are those of the connected clients.
use rust_multichat_server.Base.{
  ℕ, zero, suc, ◌+◌, ◌^◌, ◌<◌, ◌≡◌, refl, ◌∙◌, true, false, some, List, [], ◌∷◌, ◌++◌, length,
  count_by, get_elem?, get_elem?-set, get_elem?-remove_at, length-set, length-remove_at, remove_at,
  ltb, ◌==◌, Bool-cases, inl, inr, arith,
}
use rust_multichat_server.Room
use rust_multichat_server.Client.Session.{Session, Codec, connect, decode, handle_line}
use rust_multichat_server.System.Renamed.{handle_line-Renamed}
use rust_multichat_server.Server.{
  Server, Event, accepted, task_ended, is_running, runs, max_connections, start, step, run,
  on_task_ended,
}
use rust_multichat_server.Server.Capacity
use rust_multichat_server.Server.Capacity.{
  admit-Inv, on_task_ended-Inv, start-Inv, step-accepting, admit-counts,
}
use rust_multichat_server.System.{
  System, main_hub, boot, Step, admit, welcome_fails, receive, depart, flush, Reach, here, later,
}
use rust_multichat_server.System.Roster.{Inv, older}
use rust_multichat_server.System.Members.{Reach-Inv}
use rust_multichat_server.Server.Tasks.{accept_runs, accept_runs_new, accept_same, task_ended-runs}

-- The accept loop and the sessions go together.
record Linked {F : Type 0} (v : Server F) (s : System F) : Type 0 where
  accepting : v.accepting ≡ true
  inv : Capacity.Inv v
  next_id : v.next_id ≡ s.next_id
  running : count_by is_running v.handles ≡ length s.sessions
  known : (j : ℕ) (c : Session) → get_elem? s.sessions j ≡ some c → runs c.id v.handles ≡ true
  refusals : v.refusals ≡ []

module _ {F : Type 0} (codec : Codec F) where
  accepted-lem :
      (v : Server F) (s : System F)
      → Linked v s
      → length s.sessions < max_connections
      → s.next_id < 2 ^ 63
      → Capacity.Inv (step accepted v)
        × (count_by is_running (step accepted v).handles ≡ length s.sessions + 1)
        × ((step accepted v).next_id ≡ s.next_id + 1)
        × ((step accepted v).refusals ≡ [])
        × ((step accepted v).accepting ≡ true)
        × (runs s.next_id (step accepted v).handles ≡ true)
        × ((k : ℕ) → runs k v.handles ≡ true → runs k (step accepted v).handles ≡ true)
  accepted-lem v s l room small =
      let free : 0 < v.available_permits = omega (arith, l.inv.permits, l.running) in
      let (one_more, same, next) = admit-counts v free in
      rw (step-accepting v l.accepting) (
        admit-Inv v l.inv (omega (arith, l.next_id)) free,
        one_more ∙ omega (arith, l.running),
        next ∙ omega (arith, l.next_id),
        same ∙ l.refusals,
        accept_same v ∙ l.accepting,
        rw (← l.next_id) (accept_runs_new v l.inv free),
        λ k r. accept_runs v k free r,
      )

  -- The events of the accept loop that go with a step.
  Step-Linked :
      {s t : System F} (v : Server F)
      → Step codec s t
      → Inv s
      → Linked v s
      → (es : List Event) × Linked (run es v) t
  unfolding run connect
  Step-Linked {s} v (admit room small) i l =
      let (inv, n, id, refused, opened, new, old) = accepted-lem v s l room small in
      (
        accepted ∷ [],
        record {
          accepting = opened;
          inv = inv;
          next_id = id;
          running = n ∙ omega arith;
          known = new_known new old;
          refusals = refused;
        },
      )
    where
      new_known :
          runs s.next_id (step accepted v).handles ≡ true
          → ((k : ℕ) → runs k v.handles ≡ true → runs k (step accepted v).handles ≡ true)
          → (j : ℕ) (c : Session) → get_elem? ((connect s.next_id s.hub).1 ∷ s.sessions) j ≡ some c
          → runs c.id (step accepted v).handles ≡ true
      new_known new old zero c e = ground (arith, new)
      new_known new old (suc j) c e = old c.id (l.known j c e)
  Step-Linked {s} v (welcome_fails room small) i l =
      let (inv, n, id, refused, opened, new, old) = accepted-lem v s l room small in
      let w = step accepted v in
      let (one_less, others, same_open, same_id, same_refused) =
        task_ended-runs w s.next_id inv new in
      (
        accepted ∷ task_ended s.next_id ∷ [],
        record {
          accepting = same_open ∙ opened;
          inv = on_task_ended-Inv s.next_id w inv;
          next_id = same_id ∙ id;
          running = omega (arith, one_less, n);
          known = λ j c e. others c.id (ground (arith, older s j c i e)) ∙ old c.id (l.known j c e);
          refusals = same_refused ∙ refused;
        },
      )
  Step-Linked {s} v (receive j raw t {c} e) i l =
      let c' = (handle_line codec (decode codec raw) t (c, s.hub)).0 in
      let (same, _) = handle_line-Renamed codec (decode codec raw) t (c, s.hub) in
      (
        [],
        record {
          accepting = l.accepting;
          inv = l.inv;
          next_id = l.next_id;
          running = omega (arith, l.running, length-set s.sessions j c');
          known = λ k d f.
              ground (arith, get_elem?-set s.sessions j k c c' e, same, l.known j c e, l.known k d);
          refusals = l.refusals;
        },
      )
  Step-Linked {s} v (depart j t {c} e) i l =
      let r = l.known j c e in
      let (one_less, others, same_open, same_id, same_refused) = task_ended-runs v c.id l.inv r in
      (
        task_ended c.id ∷ [],
        record {
          accepting = same_open ∙ l.accepting;
          inv = on_task_ended-Inv c.id v l.inv;
          next_id = same_id ∙ l.next_id;
          running = omega (arith, one_less, l.running, length-remove_at s.sessions j c e);
          known = λ k d f. left_known k d f others;
          refusals = same_refused ∙ l.refusals;
        },
      )
    where
      left_known :
          (k : ℕ) (d : Session)
          → get_elem? (remove_at s.sessions j) k ≡ some d
          → ((m : ℕ)
              → (c.id == m) ≡ false
              → runs m (on_task_ended c.id v).handles ≡ runs m v.handles)
          → runs d.id (on_task_ended c.id v).handles ≡ true
      left_known k d f others = elim (Bool-cases (ltb k j)) [
        | inl before ↦
            let g : get_elem? s.sessions k ≡ some d =
              ground (arith, get_elem?-remove_at s.sessions j k) in
            others d.id (ground (arith, i.distinct k j d c g e)) ∙ l.known k d g
        | inr behind ↦
            let g : get_elem? s.sessions (suc k) ≡ some d =
              ground (arith, get_elem?-remove_at s.sessions j k) in
            others d.id (ground (arith, i.distinct (suc k) j d c g e)) ∙ l.known (suc k) d g
      ]
  Step-Linked {s} v (flush now_ms) i l = (
    [],
    record {
      accepting = l.accepting;
      inv = l.inv;
      next_id = l.next_id;
      running = l.running;
      known = l.known;
      refusals = l.refusals;
    },
  )

run-append : {F : Type 0} (es fs : List Event) (v : Server F) → run (es ++ fs) v ≡ run fs (run es v)
unfolding run
run-append [] fs v = refl
run-append (e ∷ es) fs v = run-append es fs (step e v)

module _ {F : Type 0} (codec : Codec F) where
  boot-Linked : Linked (start (main_hub {F = F}).room) boot
  unfolding start main_hub
  boot-Linked = record {
    accepting = refl;
    inv = start-Inv Room.new;
    next_id = refl;
    running = refl;
    known = λ j c e. absurd (cc);
    refusals = refl;
  }

  Reach-Linked :
      {s : System F}
      → Reach codec boot s
      → (es : List Event) × Linked (run es (start main_hub.room)) s
  unfolding run
  Reach-Linked here = ([], boot-Linked)
  Reach-Linked (later r st) =
      let (es, l) = Reach-Linked r in
      let (fs, m) = Step-Linked codec (run es (start main_hub.room)) st (Reach-Inv codec r) l in
      (es ++ fs, rw (run-append es fs (start main_hub.room)) m)

  -- Every state that the running server reaches comes from a run of the accept loop that `main`
  -- starts: after its events it still accepts and has refused nobody, hands out the same id next,
  -- runs one task for each connected client, under that client's id, and has the other permits of
  -- the 500 free.
  pub admission :
      {s : System F}
      → Reach codec boot s
      → (es : List Event) × let v = run es (start (main_hub {F = F}).room) in
          (v.accepting ≡ true)
          × (v.refusals ≡ [])
          × (v.next_id ≡ s.next_id)
          × (count_by is_running v.handles ≡ length s.sessions)
          × (v.available_permits + length s.sessions ≡ max_connections)
          × ((j : ℕ) (c : Session) → get_elem? s.sessions j ≡ some c → runs c.id v.handles ≡ true)
  admission r =
      let (es, l) = Reach-Linked r in
      (
        es,
        (
          l.accepting,
          l.refusals,
          l.next_id,
          l.running,
          omega (arith, l.inv.permits, l.running),
          l.known,
        ),
      )
