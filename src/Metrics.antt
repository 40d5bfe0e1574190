-- ===== src/Metrics.antt =====
-- src/metrics.rs: the two counters and the reporter's round. The `f64` rate over the interval and
-- the readings of `sysinfo` are arguments.
use rust_multichat_server.Base.{
  ℕ, suc, ◌+◌, ◌-◌, ◌*◌, ◌<◌, ◌/◌, ◌%◌, ◌^◌, ◌≤◌, ◌≡◌, List, [], ◌∷◌, map, sum, arith,
}

pub record Metrics : Type 0 where
  pub recv_count : ℕ
  pub sent_count : ℕ

unfoldable pub new : Metrics
new = record { recv_count = 0; sent_count = 0 }

unfoldable pub record_recv : Metrics → Metrics
record_recv m = record m { recv_count = (m.recv_count + 1) % 2 ^ 64 }

unfoldable pub record_sent : Metrics → Metrics
record_sent m = record m { sent_count = (m.sent_count + 1) % 2 ^ 64 }

pub record MetricsSnapshot : Type 0 where
  pub recv : ℕ
  pub sent : ℕ

unfoldable pub snapshot : Metrics → MetricsSnapshot
snapshot m = record { recv = m.recv_count; sent = m.sent_count }

-- What one round of the reporter logs.
pub record Report : Type 0 where
  pub recv : ℕ
  pub sent : ℕ
  pub recv_mps : ℕ
  pub sent_mps : ℕ
  pub mem_mb : ℕ

-- One round of the loop of `start_reporter`: `prev` holds `prev_recv` and `prev_sent`, `per_second`
-- is `(n as f64 / interval_secs) as u64`, `used_memory` is in bytes.
unfoldable pub report_round : (ℕ → ℕ) → Metrics → ℕ → MetricsSnapshot → Report × MetricsSnapshot
unfolding snapshot
report_round per_second m used_memory prev =
    let snap = snapshot m in
    (
      record {
        recv = snap.recv;
        sent = snap.sent;
        recv_mps = per_second (snap.recv - prev.recv);
        sent_mps = per_second (snap.sent - prev.sent);
        mem_mb = used_memory / 1024 / 1024;
      },
      snap,
    )

-- What wakes the reporter: a tick, with the counters and the memory at that moment, or the word to
-- shut down, which dropping the sender gives too.
pub data Woken : Type 0 where
  tick : Metrics → (used_memory : ℕ) → Woken
  shutdown : Woken

-- What the task of `start_reporter` logs.
unfoldable pub reporter : (ℕ → ℕ) → List Woken → MetricsSnapshot → List Report
unfolding report_round
reporter per_second [] prev = []
reporter per_second (shutdown ∷ ws) prev = []
reporter per_second (tick m used_memory ∷ ws) prev =
    let round = report_round per_second m used_memory prev in
    round.0 ∷ reporter per_second ws round.1

-- The interval with which `main` starts the reporter, in seconds.
abbrev pub reporter_secs : ℕ
reporter_secs = 5

unfoldable pub start_reporter : (ℕ → ℕ) → List Woken → List Report
unfolding reporter
start_reporter per_second ws = reporter per_second ws (record { recv = 0; sent = 0 })

-- The counter never goes back up to the shutdown, and ends at `last`.
abbrev pub Grows : List Woken → ℕ → ℕ → Type 0
Grows [] prev last = last ≡ prev
Grows (shutdown ∷ ws) prev last = last ≡ prev
Grows (tick m used_memory ∷ ws) prev last = (prev ≤ m.recv_count) × Grows ws m.recv_count last

-- The ticks up to the shutdown.
abbrev pub ticks : List Woken → ℕ
ticks [] = 0
ticks (shutdown ∷ ws) = 0
ticks (tick m used_memory ∷ ws) = suc (ticks ws)

abbrev pub received_rates : List Report → ℕ
received_rates reports = sum (map (λ (r : Report). r.recv_mps) reports)

Grows-le : (ws : List Woken) (prev last : ℕ) → Grows ws prev last → prev ≤ last
Grows-le [] prev last g = omega arith
Grows-le (shutdown ∷ ws) prev last g = omega arith
Grows-le (tick m used_memory ∷ ws) prev last g = omega (arith, Grows-le ws m.recv_count last g.1)

reporter-sum :
    (per_second : ℕ → ℕ) (ws : List Woken) (prev : MetricsSnapshot) (last : ℕ)
    → ((n : ℕ) → n < 2 ^ 53 → per_second n ≡ n / reporter_secs)
    → last < 2 ^ 53
    → Grows ws prev.recv last
    → (prev.recv + reporter_secs * received_rates (reporter per_second ws prev) ≤ last)
      × (last
          ≤ prev.recv + reporter_secs * received_rates (reporter per_second ws prev) + 4 * ticks ws)
unfolding reporter report_round snapshot
reporter-sum per_second [] prev last rate few g = omega arith
reporter-sum per_second (shutdown ∷ ws) prev last rate few g = omega arith
reporter-sum per_second (tick m used_memory ∷ ws) prev last rate few (up, g) =
    let now : MetricsSnapshot = record { recv = m.recv_count; sent = m.sent_count } in
    omega (
      arith,
      rate (m.recv_count - prev.recv) (omega (arith, Grows-le ws m.recv_count last g)),
      reporter-sum per_second ws now last rate few g,
    )

-- With the interval of 5 seconds that the server uses, the rates of received messages that the
-- reporter logs, times 5, sum up to the counter at the last tick before the shutdown, but for at
-- most 4 messages for each tick that the rounding loses, where the counter never goes back between
-- ticks and stays below 2 ^ 53. The rate of fewer than 2 ^ 53 messages, a quotient of two `f64`
-- that is cut to a `u64`, is taken to be their number divided by 5, rounded down.
pub start_reporter-sum :
    (per_second : ℕ → ℕ) (ws : List Woken) (last : ℕ)
    → ((n : ℕ) → n < 2 ^ 53 → per_second n ≡ n / reporter_secs)
    → last < 2 ^ 53
    → Grows ws 0 last
    → (reporter_secs * received_rates (start_reporter per_second ws) ≤ last)
      × (last ≤ reporter_secs * received_rates (start_reporter per_second ws) + 4 * ticks ws)
unfolding start_reporter
start_reporter-sum per_second ws last rate few g =
    omega (arith, reporter-sum per_second ws (record { recv = 0; sent = 0 }) last rate few g)
