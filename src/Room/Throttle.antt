-- ===== src/Room/Throttle.antt =====
-- The throttle of vote snapshots, one call after another.
use rust_multichat_server.Base.{
  ℕ, ◌⊎◌, inl, inr, ap, ◌/◌, Bool-cases, leb, ◌+◌, ◌-◌, ◌*◌, ◌≤◌, ◌<◌, ◌≡◌, refl, ◌∙◌, true, none,
  some, List, [], ◌∷◌, ◌++◌, append_assoc, arith, length, length-append,
}
use rust_multichat_server.Protocol.{ServerMsg, BroadcastEvent, server}
use rust_multichat_server.Room.{
  Room, vote_broadcast_throttle_ms, broadcast_vote_throttled, flush_pending_vote_snapshot,
}

-- A call of `broadcast_vote_throttled`, with the two clock values that it reads.
pub record Call (F : Type 0) : Type 0 where
  pub msg : ServerMsg F
  pub now_ms : ℕ
  pub schedule_ms : ℕ

module _ {F : Type 0} where
  unfoldable pub call : Call F → Room F → Room F
  call c r = broadcast_vote_throttled c.msg c.now_ms c.schedule_ms r

  unfoldable pub calls : List (Call F) → Room F → Room F
  calls [] r = r
  calls (c ∷ cs) r = calls cs (call c r)

  -- Every call comes at `end` or earlier.
  abbrev pub Until : ℕ → List (Call F) → Type 0
  Until end [] = Unit
  Until end (c ∷ cs) = (c.now_ms ≤ end) × Until end cs

  abbrev pub last_msg : ServerMsg F → List (Call F) → ServerMsg F
  last_msg m [] = m
  last_msg m (c ∷ cs) = last_msg c.msg cs

  -- Every call comes within the interval that began at `last`.
  abbrev pub Within : ℕ → List (Call F) → Type 0
  Within last [] = Unit
  Within last (c ∷ cs) = (c.now_ms < last + vote_broadcast_throttle_ms) × Within last cs

  -- A call sends its snapshot, and stores its time, exactly when 50 ms have passed since the last
  -- broadcast, and leaves what is parked; otherwise it sends nothing, parks its snapshot, and a
  -- flush is scheduled.
  pub call-sent :
      (c : Call F) (r : Room F)
      → (((call c r).sent ≡ r.sent ++ server c.msg ∷ [])
          × ((call c r).last_vote_broadcast_ms ≡ c.now_ms)
          × (r.last_vote_broadcast_ms + vote_broadcast_throttle_ms ≤ c.now_ms)
          × ((call c r).pending_vote_broadcast ≡ r.pending_vote_broadcast))
        ⊎ (((call c r).sent ≡ r.sent)
            × ((call c r).last_vote_broadcast_ms ≡ r.last_vote_broadcast_ms)
            × (c.now_ms < r.last_vote_broadcast_ms + vote_broadcast_throttle_ms)
            × ((call c r).pending_vote_broadcast ≡ some c.msg)
            × ((call c r).vote_flush_scheduled ≡ true))
  unfolding call broadcast_vote_throttled
  call-sent c r = elim (Bool-cases (leb 50 (c.now_ms - r.last_vote_broadcast_ms))) [
    | inl due ↦ inl (ground arith, ground arith, ground arith, ground arith)
    | inr early ↦ inr (ground arith, ground arith, ground arith, ground arith, ground arith)
  ]

  count-calls :
      (cs : List (Call F)) (r : Room F) (end : ℕ)
      → Until end cs
      → r.last_vote_broadcast_ms ≤ end
      → length (calls cs r).sent * vote_broadcast_throttle_ms + r.last_vote_broadcast_ms
        ≤ length r.sent * vote_broadcast_throttle_ms + end
  unfolding calls
  count-calls [] r end h k = omega arith
  count-calls (c ∷ cs) r end h k = elim (call-sent c r) [
    | inl (s, l, due, _) ↦ omega (
      arith,
      ap length s,
      length-append r.sent (server c.msg ∷ []),
      count-calls cs (call c r) end h.1 (rw l h.0),
    )
    | inr (s, l, _, _, _) ↦ omega (arith, ap length s, count-calls cs (call c r) end h.1 (rw l k))
  ]

  -- However many calls of the throttled broadcast come until `end`, those that send at once are
  -- at most one for each 50 ms that pass since the last broadcast.
  pub calls_rate :
      (cs : List (Call F)) (r : Room F) (end : ℕ)
      → Until end cs
      → r.last_vote_broadcast_ms ≤ end
      → length (calls cs r).sent
        ≤ length r.sent + (end - r.last_vote_broadcast_ms) / vote_broadcast_throttle_ms
  calls_rate cs r end h k = omega (arith, count-calls cs r end h k)

  calls-Within :
      (cs : List (Call F)) (r : Room F) (m : ServerMsg F)
      → Within r.last_vote_broadcast_ms cs
      → r.pending_vote_broadcast ≡ some m
      → ((calls cs r).sent ≡ r.sent) × ((calls cs r).pending_vote_broadcast ≡ some (last_msg m cs))
  unfolding calls
  calls-Within [] r m h e = (refl, e)
  calls-Within (c ∷ cs) r m h e = elim (call-sent c r) [
    | inl (_, _, due, _) ↦ absurd (omega arith)
    | inr (s, l, _, p, _) ↦
        let (sent, pending) = calls-Within cs (call c r) c.msg (rw l h.1) p in (sent ∙ s, pending)
  ]

  flush-sent :
      (r : Room F) (m : ServerMsg F) (now_ms : ℕ)
      → r.pending_vote_broadcast ≡ some m
      → ((flush_pending_vote_snapshot now_ms r).sent ≡ r.sent ++ server m ∷ [])
        × ((flush_pending_vote_snapshot now_ms r).pending_vote_broadcast ≡ none)
  unfolding flush_pending_vote_snapshot
  flush-sent r m now_ms e = (ground arith, ground arith)

  -- A burst of one or more calls within 50 ms of the last broadcast sends nothing itself, and the
  -- flush after it sends one snapshot, the one of the last call; nothing is left to send.
  pub flush-calls :
      (c : Call F) (cs : List (Call F)) (r : Room F) (now_ms : ℕ)
      → Within r.last_vote_broadcast_ms (c ∷ cs)
      → ((calls (c ∷ cs) r).sent ≡ r.sent)
        × ((flush_pending_vote_snapshot now_ms (calls (c ∷ cs) r)).sent
            ≡ r.sent ++ server (last_msg c.msg cs) ∷ [])
        × ((flush_pending_vote_snapshot now_ms (calls (c ∷ cs) r)).pending_vote_broadcast ≡ none)
  unfolding calls
  flush-calls c cs r now_ms h = elim (call-sent c r) [
    | inl (_, _, due, _) ↦ absurd (omega arith)
    | inr (s, l, _, p, _) ↦
        let (sent, pending) = calls-Within cs (call c r) c.msg (rw l h.1) p in
        let (flushed, empty) = flush-sent (calls cs (call c r)) _ now_ms pending in
        (
          sent ∙ s,
          flushed
              ∙ ap (λ (l : List (BroadcastEvent F)). l ++ server (last_msg c.msg cs) ∷ [])
                  (sent ∙ s),
          empty,
        )
  ]

  -- While a snapshot is parked, a call that comes 50 ms or more after the last broadcast sends its
  -- own newer snapshot at once and leaves the parked one where it is, so that the flush then sends
  -- the older snapshot after the newer one, with no interval between the two.
  pub flush_after_direct :
      (old : ServerMsg F) (c : Call F) (r : Room F) (flush_ms : ℕ)
      → r.pending_vote_broadcast ≡ some old
      → r.last_vote_broadcast_ms + vote_broadcast_throttle_ms ≤ c.now_ms
      → (flush_pending_vote_snapshot flush_ms (call c r)).sent
        ≡ r.sent ++ server c.msg ∷ server old ∷ []
  flush_after_direct old c r flush_ms e due = elim (call-sent c r) [
    | inl (s, _, _, p) ↦
        (flush-sent (call c r) old flush_ms (p ∙ e)).0
        ∙ ap (λ (l : List (BroadcastEvent F)). l ++ server old ∷ []) s
        ∙ append_assoc r.sent (server c.msg ∷ []) (server old ∷ [])
    | inr (_, _, early, _, _) ↦ absurd (omega arith)
  ]
