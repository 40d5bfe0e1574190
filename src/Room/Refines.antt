-- ===== src/Room/Refines.antt =====
-- The throttle as uninterrupted methods is one of the interleavings of its atomic operations.
use rust_multichat_server.Base.{
  ℕ, zero, suc, ◌-◌, ◌≡◌, ◌⊎◌, sym, ap, ◌∙◌, refl, Bool, true, false, Option, none, some, List, [],
  ◌∷◌, ◌++◌, append-nil, map, arith, get_elem?, get_elem?-set, set, Bool-cases, inl, inr, leb,
  leb→le, ==_refl,
}
use rust_multichat_server.Protocol.{ServerMsg, server}
use rust_multichat_server.Room.{
  Room, vote_broadcast_throttle_ms, broadcast_vote_throttled, park_vote, schedule_vote_flush,
  compare_exchange, flush_pending_vote_snapshot,
}
use rust_multichat_server.Room.Throttle.{Call, call}
use rust_multichat_server.Room.Race.{
  Task, loaded, parking, parked, claimed, sleeping, woken, took, sending, done, taken, State, Step,
  win, lose, park, swap_first, swap_later, spawn, wake, take_pending, store, send,
}
use rust_multichat_server.Room.Race
use rust_multichat_server.Room.Settle.{Run, here, next}

set-set {ℓ} : {A : Type ℓ} (xs : List A) (j : ℕ) (v w : A) → set (set xs j v) j w ≡ set xs j w
set-set [] j v w = refl
set-set (x ∷ xs) zero v w = refl
set-set (x ∷ xs) (suc j) v w = ap (◌∷◌ x) (set-set xs j v w)

module _ {F : Type 0} where
  -- The room as a state of the interleavings: `log` is what the throttle has sent.
  abbrev pub view : Room F → List (ServerMsg F) → List (Task F) → State F
  view r log tasks = record {
    last = r.last_vote_broadcast_ms;
    pending = r.pending_vote_broadcast;
    scheduled = r.vote_flush_scheduled;
    sent = log;
    tasks = tasks;
  }

  -- From `r` to `r'` by steps of the tasks `ts`, which become `us`; both have sent the same.
  abbrev pub Simulated : Room F → Room F → List (Task F) → List (Task F) → Type 0
  Simulated r r' ts us =
      (new : List (ServerMsg F)) × (r'.sent ≡ r.sent ++ map (λ m. server m) new)
      × ((log : List (ServerMsg F)) → (n : ℕ) × Run (view r log ts) n (view r' (log ++ new) us))

  -- The tail of the method, from where the snapshot is about to be parked.
  park-Run :
      (msg : ServerMsg F) (schedule_ms : ℕ) (b : Bool) (r : Room F) (s : State F)
      (log : List (ServerMsg F)) (ts : List (Task F)) (n : ℕ)
      → Run s n (view (record r { vote_flush_scheduled = b }) log (parking msg ∷ ts))
      → (w : Task F) × ((w ≡ done) ⊎ (w ≡ sleeping))
        × (k : ℕ) × Run s k
            (view (park_vote msg schedule_ms (record r { vote_flush_scheduled = b })) log (w ∷ ts))
  unfolding park_vote schedule_vote_flush
  park-Run msg schedule_ms true r s log ts n run =
      (done, inl refl, _, next (next run (park 0 refl)) (swap_later 0 refl refl))
  park-Run msg schedule_ms false r s log ts n run = (
    sleeping,
    inr refl,
    _,
    next (next (next run (park 0 refl)) (swap_first 0 refl refl)) (spawn 0 refl),
  )

  park-sent :
      (msg : ServerMsg F) (schedule_ms : ℕ) (r : Room F)
      → (park_vote msg schedule_ms r).sent ≡ r.sent ++ []
  unfolding park_vote schedule_vote_flush
  park-sent msg schedule_ms r = ground (arith, append-nil r.sent)

  -- What a call sends, and its task at the end.
  abbrev Called : Call F → Room F → List (Task F) → Type 0
  Called c r ts =
      (new : List (ServerMsg F)) × ((call c r).sent ≡ r.sent ++ map (λ m. server m) new)
      × ((log : List (ServerMsg F))
          → (w : Task F) × ((w ≡ done) ⊎ (w ≡ sleeping))
            × (n : ℕ) × Run (view r log ts) n (view (call c r) (log ++ new) (w ∷ ts)))

  call-Called : (c : Call F) (r : Room F) (ts : List (Task F)) → Called c r ts
  unfolding call broadcast_vote_throttled compare_exchange
  call-Called c r ts =
      elim (Bool-cases (leb vote_broadcast_throttle_ms (c.now_ms - r.last_vote_broadcast_ms))) [
        | inl due ↦
            rw (due, ==_refl r.last_vote_broadcast_ms)
              (
                c.msg ∷ [],
                refl,
                λ log. (
                  done,
                  inl refl,
                  _,
                  next
                      (next (next here (Race.call c.msg c.now_ms))
                        (win 0 refl (leb→le _ _ due) refl))
                      (send 0 refl),
                ),
              )
        | inr early ↦ rw early (
          [],
          park-sent c.msg c.schedule_ms r,
          λ log. rw (append-nil log) (
              park-Run c.msg c.schedule_ms r.vote_flush_scheduled r (view r log ts) log ts _
                (next (next here (Race.call c.msg c.now_ms)) (lose 0 refl (inl (ground arith))))),
        )
      ]

  at_set :
      (ts : List (Task F)) (j : ℕ) (v w : Task F)
      → get_elem? ts j ≡ some v
      → get_elem? (set ts j w) j ≡ some w
  at_set ts j v w e = ground (arith, get_elem?-set ts j j v w e)

  abbrev Flushed : ℕ → Room F → List (Task F) → ℕ → Type 0
  Flushed now_ms r ts j = Simulated r (flush_pending_vote_snapshot now_ms r) ts (set ts j done)

  flush-Flushed :
      (now_ms : ℕ) (p : Option (ServerMsg F)) (r : Room F) (ts : List (Task F)) (j : ℕ)
      → get_elem? ts j ≡ some sleeping
      → Flushed now_ms (record r { pending_vote_broadcast = p }) ts j
  unfolding flush_pending_vote_snapshot
  flush-Flushed now_ms none r ts j e =
      let e1 = at_set ts j sleeping woken e in
      (
        [],
        sym (append-nil r.sent),
        λ log. (
          2,
          rw (append-nil log, ← set-set ts j woken done)
              (next (next here (wake j e)) (take_pending j e1)),
        ),
      )
  flush-Flushed now_ms (some msg) r ts j e =
      let ts1 = set ts j woken in
      let e1 = at_set ts j sleeping woken e in
      let ts2 = set ts1 j (took msg) in
      let e2 = at_set ts1 j woken (took msg) e1 in
      let e3 = at_set ts2 j (took msg) (sending msg) e2 in
      let same : set (set ts2 j (sending msg)) j done ≡ set ts j done =
        set-set ts2 j (sending msg) done
        ∙ set-set ts1 j (took msg) done
        ∙ set-set ts j woken done in
      (
        msg ∷ [],
        refl,
        λ log. (
          4,
          rw (← same) (
              next (next (next (next here (wake j e)) (take_pending j e1)) (store j now_ms e2))
                (send j e3)),
        ),
      )

  -- A call of `broadcast_vote_throttled` that nothing interrupts is one of the interleavings of the
  -- throttle: a run of one new task, which at the end is done or sleeps until its flush. The run
  -- ends with the very fields that the method leaves, and sends what the method sends.
  pub call-Run :
      (c : Call F) (r : Room F) (ts : List (Task F))
      → (new : List (ServerMsg F)) × ((call c r).sent ≡ r.sent ++ map (λ m. server m) new)
        × ((log : List (ServerMsg F))
            → (w : Task F) × ((w ≡ done) ⊎ (w ≡ sleeping))
              × (n : ℕ) × Run (view r log ts) n (view (call c r) (log ++ new) (w ∷ ts)))
  call-Run c r ts = call-Called c r ts

  -- An uninterrupted flush is a run of the task that slept for it, to its end, with the fields that
  -- the method leaves and the messages that it sends.
  pub flush-Run :
      (now_ms j : ℕ) (r : Room F) (ts : List (Task F))
      → get_elem? ts j ≡ some sleeping
      → (new : List (ServerMsg F)) × ((flush_pending_vote_snapshot now_ms r).sent
          ≡ r.sent ++ map (λ m. server m) new)
        × ((log : List (ServerMsg F))
            → (n : ℕ) × Run
                (view r log ts)
                n
                (view (flush_pending_vote_snapshot now_ms r) (log ++ new) (set ts j done)))
  flush-Run now_ms j r ts e = flush-Flushed now_ms r.pending_vote_broadcast r ts j e
