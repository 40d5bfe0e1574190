-- ===== src/Examples/Fleets.antt =====
-- Fickle bots, normal bots in a scenario, and the reporter.
use rust_multichat_server.Base.{
  ℕ, ◌+◌, ◌%◌, ◌^◌, ◌≡◌, refl, inr, true, false, none, some, Option, List, [], ◌∷◌, codes, length,
  indicator, holds, not, ◌==◌, arith,
}
use rust_multichat_server.Base.{leb, ◌<◌, ◌≤◌, ◌*◌, ◌/◌, count_by}
use rust_multichat_server.Protocol.{ServerMsg, vote_snapshot}
use rust_multichat_server.Strings.{text_eq, contains, to_string}
use rust_multichat_server.Metrics.{
  Metrics, Woken, tick, shutdown, reporter_secs, received_rates, ticks, start_reporter,
  start_reporter-sum,
}
use rust_multichat_server.Client.Session.Votes.{served}
use rust_multichat_server.Bot.Rtt
use rust_multichat_server.Bot.Recv.{line}
use rust_multichat_server.Bot.Tally.{FickleResult}
use rust_multichat_server.Bot.Fickle.{run, run_votes, vote_rounds, after_barrier, re_vote, watch}
use rust_multichat_server.Bot.Fickle.Wire.{reported_vote_counted}
use rust_multichat_server.Bot.Fickle.Barrier
use rust_multichat_server.Bot.Fickle.Barrier.{reaches_barrier, barrier_stuck}
use rust_multichat_server.Bot.Scenario.{ScenarioReport, succeeded, Measured, single_barrier}
use rust_multichat_server.Bot.Scenario.Single.{
  run_scenario, run_single_scenario, reported, unknown_mode_succeeds, mode_bot,
}
use rust_multichat_server.Bot.Echo.{target}
use rust_multichat_server.Bot.Echo.Runs
use rust_multichat_server.Bot.Echo.Runs.{run_all, AllServed, all_sent, normal_scenario_passes}
use rust_multichat_server.Client.Line.{Bytes, Fill, chunk, pop_cr}
use rust_multichat_server.Client.Line.Framing.{Fits, AllFit, send_msg, send_each}
use rust_multichat_server.Client.Session.Wire.{events_of}
use rust_multichat_server.Protocol.{max_line_len, ClientMsg, vote}
use rust_multichat_server.Examples.Data.{encode, encode-read, Fits-some, numbers, clock, hub}

-- Two votes, for the options 0 and 1, and the leader's votes for the option 1.
abbrev snapshots : List (Option (ServerMsg ℕ))
snapshots = some (vote_snapshot (0 ∷ 1 ∷ 0 ∷ 0 ∷ []) (0 ∷ 100 ∷ 0 ∷ 0 ∷ [])) ∷ none ∷ []

abbrev result : FickleResult
result = record { last_vote = some 1; last_snapshot = some (0 ∷ 1 ∷ 0 ∷ 0 ∷ []) }

leads : (run true (λ seq. seq) (λ _. true) 2 true snapshots).1 ≡ some result
unfolding run run_votes vote_rounds after_barrier re_vote watch
leads = refl

-- What the leader sends: its votes, and then its vote again.
abbrev led : List ClientMsg
led = vote 0 ∷ vote 1 ∷ vote 1 ∷ vote 1 ∷ vote 1 ∷ []

leads_sent : (run true (λ seq. seq) (λ _. true) 2 true snapshots).0 ≡ led
unfolding run run_votes vote_rounds after_barrier re_vote watch
leads_sent = refl

-- The bytes of its lines, in chunks that end in the middle of lines, with another byte behind them.
abbrev led_bytes : Bytes
led_bytes = 1 ∷ 0 ∷ b'\n' ∷ 1 ∷ 1 ∷ b'\n' ∷ 1 ∷ 1 ∷ b'\n' ∷ 1 ∷ 1 ∷ b'\n' ∷ 1 ∷ 1 ∷ b'\n' ∷ []

abbrev wire : List Fill
wire =
    chunk (1 ∷ 0 ∷ b'\n' ∷ 1 ∷ [])
    ∷ chunk (1 ∷ b'\n' ∷ 1 ∷ 1 ∷ b'\n' ∷ 1 ∷ 1 ∷ b'\n' ∷ [])
    ∷ chunk (1 ∷ 1 ∷ b'\n' ∷ 0 ∷ [])
    ∷ []

led-AllFit : AllFit max_line_len encode led
unfolding pop_cr
led-AllFit = (first, (again, (again, (again, (again, tt)))))
  where
    first : (json : Bytes) → encode (vote 0) ≡ some json → Fits max_line_len json
    first json e = Fits-some max_line_len (1 ∷ 0 ∷ []) json (refl, refl, omega arith) e

    again : (json : Bytes) → encode (vote 1) ≡ some json → Fits max_line_len json
    again json e = Fits-some max_line_len (1 ∷ 1 ∷ []) json (refl, refl, omega arith) e

reported_vote_counted_example :
    (served numbers 9
        (events_of clock (length (run true (λ seq. seq) (λ _. true) 2 true snapshots).0) wire)
        hub).1.board.counts
      1
    ≡ (hub.board.counts 1 + indicator (holds result.last_vote 1)) % 2 ^ 64
unfolding send_each send_msg
reported_vote_counted_example =
    reported_vote_counted numbers encode clock true (λ seq. seq) (λ _. true) 2 true snapshots result
      led_bytes (0 ∷ []) wire 9 hub 1 leads encode-read (rw (leads_sent) led-AllFit)
      (rw (leads_sent) refl) tt refl (λ i h. omega arith) (omega arith)

-- Three bots, of which the last cannot send its second vote.
abbrev steady : Barrier.Bot
steady = record { connects = true; gen_range = λ seq. 0; sends = λ seq. true }

abbrev broken : Barrier.Bot
broken = record { connects = true; gen_range = λ seq. 0; sends = λ seq. not (seq == 1) }

abbrev fleet : List Barrier.Bot
fleet = steady ∷ steady ∷ broken ∷ []

closed : (size waiting : ℕ) → waiting < size → leb size waiting ≡ false
closed size waiting h = ground arith

barrier_stuck_example :
    leb (single_barrier (codes "fickle") (length fleet)) (count_by (reaches_barrier 4) fleet)
    ≡ false
barrier_stuck_example = barrier_stuck leb 4 fleet 2 broken closed refl (inr (1, omega arith, refl))

abbrev measured : Measured ℕ
measured = record { elapsed_secs = 3; rtt_counter = Rtt.new; fickle_results = []; order = λ es. es }

no_bot : (mode_bot (codes "nomral") ≡ none) × (text_eq (codes "nomral") (codes "mixed") ≡ false)
unfolding mode_bot text_eq
no_bot = (refl, refl)

unknown_mode_succeeds_example :
    (report : ScenarioReport ℕ) × (run_scenario true
        (codes "nomral")
        5
        100
        none
        0
        (λ _. succeeded)
        (λ _. none)
        measured
      ≡ reported report)
    × (report.success_count ≡ 5)
    × (report.failure_count ≡ 0)
unknown_mode_succeeds_example =
    unknown_mode_succeeds true (codes "nomral") 5 100 none 0 (λ _. succeeded) (λ _. none) measured
      no_bot.0 no_bot.1 (omega arith)

-- A bot that gets its one message back.
abbrev echoed : ℕ → Runs.Bot
echoed id = record {
  connects = true;
  sends = λ seq. true;
  now_ms = λ seq. 100;
  recv_ms = λ k. 130;
  received = line (codes "hello") ∷ line (target id) ∷ [];
}

all_served : AllServed 0 1 (echoed 0 ∷ echoed 1 ∷ [])
unfolding all_sent contains target to_string
all_served = ((refl, refl, omega arith), ((refl, refl, omega arith), tt))

normal_scenario_passes_example :
    (report : ScenarioReport ℕ) × (run_single_scenario
        (codes "normal")
        2
        1
        (run_all 0 1 (echoed 0 ∷ echoed 1 ∷ []) (0, Rtt.new)).0
        (λ _. succeeded)
        measured
      ≡ some report)
    × (report.total_bots ≡ 2)
    × (report.success_count + report.failure_count ≡ 2)
normal_scenario_passes_example =
    normal_scenario_passes 1 (echoed 0 ∷ echoed 1 ∷ []) Rtt.new (λ _. succeeded) measured
      (omega arith) (omega arith) (omega arith) all_served

abbrev counted : ℕ → Metrics
counted n = record { recv_count = n; sent_count = 0 }

abbrev woken : List Woken
woken = tick (counted 14) 0 ∷ tick (counted 29) 0 ∷ shutdown ∷ tick (counted 42) 0 ∷ []

start_reporter-sum_example :
    (reporter_secs * received_rates (start_reporter (λ n. n / 5) woken) ≤ 29)
    × (29 ≤ reporter_secs * received_rates (start_reporter (λ n. n / 5) woken) + 4 * ticks woken)
start_reporter-sum_example =
    start_reporter-sum (λ n. n / 5) woken 29 (λ n few. refl) (omega arith)
      (omega arith, (omega arith, refl))
