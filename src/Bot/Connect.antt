-- ===== src/Bot/Connect.antt =====
-- `connect` of src/bot/mod.rs: the retries with backoff. The outcome of each attempt and the random
-- numbers are arguments, an error is of any type `E`.
use rust_multichat_server.Base.{
  ℕ, zero, suc, ◌+◌, ◌*◌, ◌%◌, ◌^◌, ◌≤◌, ◌≡◌, ◌≢◌, ◌⊎◌, inl, inr, refl, min, max, Option, none,
  some, List, [], ◌∷◌, length, sum, arith,
}

abbrev pub max_attempts : ℕ
max_attempts = 8

abbrev pub base_backoff_ms : ℕ
base_backoff_ms = 20

pub data Attempt (E : Type 0) : Type 0 where
  connected : Attempt E
  refused : E → Attempt E  -- ErrorKind::ConnectionRefused
  failed : E → Attempt E

pub data Connection (E : Type 0) : Type 0 where
  stream : Connection E
  error : E → Connection E
  panic : Connection E  -- `last_err.unwrap()` without an error

unfoldable pub delay_ms : ℕ → ℕ
delay_ms attempt = base_backoff_ms * 2 ^ min attempt 5

unfoldable pub jitter_ms : ℕ → ℕ
jitter_ms random = max (random % base_backoff_ms) 1

-- The longest time for the attempts that are left.
abbrev longest : ℕ → ℕ → ℕ
unfolding delay_ms
longest zero attempt = 0
longest (suc left) attempt = (delay_ms attempt + 19) + longest left (suc attempt)

jitter_ms-le : (r : ℕ) → jitter_ms r ≤ 19
unfolding jitter_ms
jitter_ms-le r = omega arith

module _ {E : Type 0} where
  unfoldable pub give_up : Option E → Connection E
  give_up none = panic
  give_up (some e) = error e

  -- The result, and the times that were slept, where `left` attempts are left from `attempt` on.
  unfoldable pub retry : (ℕ → Attempt E) → (ℕ → ℕ) → ℕ → ℕ → Option E → Connection E × List ℕ
  unfolding give_up delay_ms jitter_ms
  retry try random zero attempt last_err = (give_up last_err, [])
  retry try random (suc left) attempt last_err = elim (try attempt) [
    | connected ↦ (stream, [])
    | refused e ↦
        let rest = retry try random left (suc attempt) (some e) in
        (rest.0, (delay_ms attempt + jitter_ms (random attempt)) ∷ rest.1)
    | failed e ↦ (error e, [])
  ]

  unfoldable pub connect : (ℕ → Attempt E) → (ℕ → ℕ) → Connection E × List ℕ
  unfolding retry
  connect try random = retry try random max_attempts 0 none

  -- What a series of attempts comes to.
  abbrev Ends : (ℕ → Attempt E) → (ℕ → ℕ) → ℕ → ℕ → Option E → Type 0
  Ends try random left attempt last_err =
      (sum (retry try random left attempt last_err).1 ≤ longest left attempt)
      × (length (retry try random left attempt last_err).1 ≤ left)

  Attempt-cases :
      (a : Attempt E) → (a ≡ connected) ⊎ (((e : E) × (a ≡ refused e)) ⊎ ((e : E) × (a ≡ failed e)))
  Attempt-cases connected = inl refl
  Attempt-cases (refused e) = inr (inl (e, refl))
  Attempt-cases (failed e) = inr (inr (e, refl))

  retry-Ends :
      (try : ℕ → Attempt E) (random : ℕ → ℕ) (left attempt : ℕ) (last_err : Option E)
      → Ends try random left attempt last_err
  unfolding retry longest
  retry-Ends try random zero attempt last_err = (omega arith, omega arith)
  retry-Ends try random (suc left) attempt last_err = elim (Attempt-cases (try attempt)) [
    | inl c ↦ rw (retry, c) (omega arith, omega arith)
    | inr (inl (e, c)) ↦
        let (waits, many) = retry-Ends try random left (suc attempt) (some e) in
        rw (retry, c) (omega (arith, waits, jitter_ms-le (random attempt)), omega (arith, many))
    | inr (inr (e, c)) ↦ rw (retry, c) (omega arith, omega arith)
  ]

  retry-ne-panic :
      (try : ℕ → Attempt E) (random : ℕ → ℕ) (left attempt : ℕ) (last_err : Option E)
      → (retry try random (suc left) attempt last_err).0 ≢ panic
  unfolding retry give_up
  retry-ne-panic try random zero attempt last_err h = elim (Attempt-cases (try attempt)) [
    | inl c ↦ cc
    | inr (inl (e, c)) ↦ cc
    | inr (inr (e, c)) ↦ cc
  ]
  retry-ne-panic try random (suc left) attempt last_err h = elim (Attempt-cases (try attempt)) [
    | inl c ↦ cc
    | inr (inl (e, c)) ↦ retry-ne-panic try random left (suc attempt) (some e) (rw (retry, c) at h)
    | inr (inr (e, c)) ↦ cc
  ]

  -- However the attempts go, there are at most 8 waits, of 2692 ms together at most, and the
  -- result is a stream or an error of an attempt: the `unwrap` at the end never fails.
  pub connect_waits :
      (try : ℕ → Attempt E) (random : ℕ → ℕ)
      → ((connect try random).0 ≢ panic)
        × (length (connect try random).1 ≤ max_attempts)
        × (sum (connect try random).1 ≤ 2692)
  unfolding connect longest
  connect_waits try random =
      let (waits, many) = retry-Ends try random max_attempts 0 none in
      (retry-ne-panic try random 7 0 none, many, waits)
