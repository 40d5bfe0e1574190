-- ===== src/Room/Suite.antt =====
-- The test of src/room.rs, by the clocks that its calls read: a receiver that subscribes at the
-- start sees what is sent, in order. A wait that times out is `false`.
use rust_multichat_server.Base.{
  ℕ, ◌+◌, ◌≤◌, ◌≡◌, Bool, true, false, ◌&&◌, Option, some, List, [], ◌∷◌, ◌==◌, get_elem?, get_or,
  if◌then◌else◌, ltb, sum, from_fn, arith,
}
use rust_multichat_server.Protocol
use rust_multichat_server.Protocol.{n_options, ServerMsg, vote_snapshot, BroadcastEvent, Floats}
use rust_multichat_server.Room.{
  Room, subscribe, new_with_capacity, broadcast_vote_throttled, flush_pending_vote_snapshot,
  park_vote, compare_exchange, schedule_vote_flush, flush_delay,
}

abbrev counts_are : List ℕ → List ℕ → Bool
counts_are [] [] = true
counts_are (c ∷ cs) (d ∷ ds) = c == d && counts_are cs ds
counts_are _ _ = false

module _ {F : Type 0} where
  unfoldable pub snapshot_of : Floats F → List ℕ → ServerMsg F
  snapshot_of f32 counts =
      let total = sum counts in
      vote_snapshot counts (
        from_fn n_options (λ i.
          if total == 0
          then f32.zero_f32
          else f32.div (f32.of_u64 (get_or counts i 0)) (f32.of_u64 total)))

  -- `matches!` on an event that was received.
  unfoldable pub is_snapshot : List ℕ → Option (BroadcastEvent F) → Bool
  is_snapshot expected (some (Protocol.BroadcastEvent.server (vote_snapshot counts percentages))) =
      counts_are counts expected
  is_snapshot expected _ = false

  -- What a spawned flush does within `timeout_ms`; its sleep ends after its delay.
  unfoldable pub flush_within : ℕ → ℕ → Room F → Room F
  flush_within timeout_ms now_ms r = elim r.timers [
    | [] ↦ r
    | delay_ms ∷ timers ↦
        if ltb delay_ms timeout_ms then flush_pending_vote_snapshot now_ms r else r
  ]

  -- The two calls come at `now_ms` and `later_ms`; `schedule_ms` and `flush_ms` are the clocks of
  -- the schedule of the flush and of the flush.
  unfoldable pub throttled_vote_broadcast_flushes_latest_pending_snapshot :
      Floats F → ℕ → ℕ → ℕ → ℕ → Bool
  unfolding new_with_capacity subscribe broadcast_vote_throttled snapshot_of is_snapshot
      flush_within
  throttled_vote_broadcast_flushes_latest_pending_snapshot f32 now_ms later_ms schedule_ms
        flush_ms =
      let room : Room F = new_with_capacity 16 in
      let rx = subscribe room in
      let called =
        broadcast_vote_throttled (snapshot_of f32 (1 ∷ 0 ∷ 0 ∷ 0 ∷ [])) now_ms now_ms room in
      let again =
        broadcast_vote_throttled (snapshot_of f32 (0 ∷ 0 ∷ 0 ∷ 0 ∷ [])) later_ms schedule_ms
          called in
      let flushed = flush_within 200 flush_ms again in
      is_snapshot (1 ∷ 0 ∷ 0 ∷ 0 ∷ []) (get_elem? called.sent rx)
      && is_snapshot (0 ∷ 0 ∷ 0 ∷ 0 ∷ []) (get_elem? flushed.sent (rx + 1))

  -- The test passes whatever the clocks of its calls, one behind another or not, if the first is at
  -- least 50 ms.
  pub room_test_passes :
      (f32 : Floats F) (now_ms later_ms schedule_ms flush_ms : ℕ)
      → 50 ≤ now_ms
      → throttled_vote_broadcast_flushes_latest_pending_snapshot f32 now_ms later_ms schedule_ms
          flush_ms
        ≡ true
  unfolding throttled_vote_broadcast_flushes_latest_pending_snapshot new_with_capacity subscribe
      broadcast_vote_throttled snapshot_of is_snapshot flush_within flush_pending_vote_snapshot
      park_vote compare_exchange schedule_vote_flush flush_delay
  room_test_passes f32 now_ms later_ms schedule_ms flush_ms h = ground arith
