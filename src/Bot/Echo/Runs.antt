-- ===== src/Bot/Echo/Runs.antt =====
-- `run` of src/bot/normal.rs and of src/bot/spammer.rs, two copies of one function, and the counter
-- of a normal scenario. Whether the bot connects, whether each send comes through, the two clocks
-- and what is received are arguments.
use native.Mathlib.Nat.{suc-mul}
use rust_multichat_server.Base.{
  ℕ, zero, suc, ◌+◌, ◌*◌, ◌%◌, ◌^◌, ◌≤◌, ◌<◌, ◌≡◌, ap, ◌∙◌, Bool, true, false, ◌&&◌, some, List, [],
  ◌∷◌, codes, length, if◌then◌else◌, inr, arith,
}
use rust_multichat_server.Protocol.{Text}
use rust_multichat_server.Strings.{contains}
use rust_multichat_server.Bot.Rtt.{RttCounter}
use rust_multichat_server.Bot.Recv.{Recv, recv_until_count, recv_until_count_lem, matches}
use rust_multichat_server.Bot.Echo.{target, send_all, on_match}
use rust_multichat_server.Bot.Kind.{BotType}
use rust_multichat_server.Bot.Scenario.{ScenarioReport, Joined, Measured}
use rust_multichat_server.Bot.Scenario.Single.{run_single_scenario, run_single_scenario_counts}

-- What befalls one bot.
pub record Bot : Type 0 where
  pub connects : Bool
  pub sends : ℕ → Bool
  pub now_ms : ℕ → ℕ
  pub recv_ms : ℕ → ℕ
  pub received : List Recv

-- The sends from number `seq` on all come through.
unfoldable pub all_sent : (ℕ → Bool) → ℕ → ℕ → Bool
all_sent sends seq zero = true
all_sent sends seq (suc left) = sends seq && all_sent sends (suc seq) left

-- The callback reads the clock when it is called: the number counts the calls.
unfoldable pub timed_match : Text → List ℕ → (ℕ → ℕ) → Text → ℕ × RttCounter → ℕ × RttCounter
unfolding on_match
timed_match target send_timestamps recv_ms line (k, c) =
    (suc k, on_match target send_timestamps (recv_ms k) line c)

-- The callback of a bot.
unfoldable pub match_of : ℕ → ℕ → Bot → Text → ℕ × RttCounter → ℕ × RttCounter
unfolding timed_match send_all target
match_of id msg_count b = timed_match (target id) (send_all id b.now_ms 0 msg_count).1 b.recv_ms

-- Whether the run succeeds, and the two counters that the bots share.
unfoldable pub run : ℕ → ℕ → Bot → ℕ × RttCounter → Bool × (ℕ × RttCounter)
unfolding all_sent match_of contains recv_until_count
run id msg_count b (recv_counter, rtt) =
    let got =
      recv_until_count (match_of id msg_count b) (contains (target id)) msg_count b.received
        (0, rtt) in
    if b.connects && all_sent b.sends 0 msg_count
    then (true, ((recv_counter + got.0) % 2 ^ 64, got.1.1))
    else (false, (recv_counter, rtt))

-- The spammer does the same.
unfoldable pub spammer_run : ℕ → ℕ → Bot → ℕ × RttCounter → Bool × (ℕ × RttCounter)
unfolding run
spammer_run id msg_count b counters = run id msg_count b counters

-- The bots one after another, with ids from `id` on.
unfoldable pub run_all : ℕ → ℕ → List Bot → ℕ × RttCounter → ℕ × RttCounter
unfolding run
run_all id msg_count [] counters = counters
run_all id msg_count (b ∷ bs) counters =
    run_all (suc id) msg_count bs (run id msg_count b counters).1

-- The bot connects, its sends come through, and it gets at least `msg_count` of its own messages
-- back before the end.
abbrev pub Served : ℕ → ℕ → Bot → Type 0
Served id msg_count b =
    (b.connects ≡ true)
    × (all_sent b.sends 0 msg_count ≡ true)
    × (msg_count ≤ matches (match_of id msg_count b) (contains (target id)) b.received)

abbrev pub AllServed : ℕ → ℕ → List Bot → Type 0
AllServed id msg_count [] = Unit
AllServed id msg_count (b ∷ bs) = Served id msg_count b × AllServed (suc id) msg_count bs

le_times : (n m : ℕ) → 0 < m → n ≤ n * m
le_times zero m h = omega arith
le_times (suc n) m h = omega (arith, suc-mul n m, le_times n m h)

run-Served :
    (id msg_count : ℕ) (b : Bot) (counters : ℕ × RttCounter)
    → 0 < msg_count
    → msg_count < 2 ^ 64
    → Served id msg_count b
    → (run id msg_count b counters).1.0 ≡ (counters.0 + msg_count) % 2 ^ 64
unfolding run
run-Served id msg_count b (n, rtt) some_msg small (up, sent, back) =
    let got =
      recv_until_count_lem (match_of id msg_count b) (contains (target id)) msg_count b.received
        (0, rtt) small in
    rw (run, up, sent) (ap (λ k. (n + k) % 2 ^ 64) (got ∙ omega arith))

run_all-AllServed :
    (id msg_count : ℕ) (bs : List Bot) (counters : ℕ × RttCounter)
    → 0 < msg_count
    → msg_count < 2 ^ 64
    → AllServed id msg_count bs
    → counters.0 + length bs * msg_count < 2 ^ 64
    → (run_all id msg_count bs counters).0 ≡ counters.0 + length bs * msg_count
unfolding run_all
run_all-AllServed id msg_count [] counters some_msg small all fits = omega arith
run_all-AllServed id msg_count (b ∷ bs) counters some_msg small (one, all) fits =
    let e = run-Served id msg_count b counters some_msg small one in
    let more : suc (length bs) * msg_count ≡ msg_count + length bs * msg_count =
      omega (arith, suc-mul (length bs) msg_count) in
    let now : (run id msg_count b counters).1.0 ≡ counters.0 + msg_count =
      e ∙ omega (arith, fits, more) in
    run_all-AllServed (suc id) msg_count bs _ some_msg small all (omega (arith, now, more))
    ∙ omega (arith, now, more)

-- A normal scenario with one message or more for each bot, and fewer than 2 ^ 64 messages in all
-- and for each bot, in which every bot connects, sends all its messages and gets at least as many
-- of its own back, passes its check for lost messages and comes to its report, with every bot in it
-- once, as a success or as a failure.
pub normal_scenario_passes :
    {E : Type 0} (msg_count : ℕ) (bs : List Bot) (rtt : RttCounter) (outcome : ℕ × BotType → Joined)
    (m : Measured E)
    → 0 < msg_count
    → msg_count < 2 ^ 64
    → length bs * msg_count < 2 ^ 64
    → AllServed 0 msg_count bs
    → (report : ScenarioReport E) × (run_single_scenario
          (codes "normal")
          (length bs)
          msg_count
          (run_all 0 msg_count bs (0, rtt)).0
          outcome
          m
        ≡ some report)
      × (report.total_bots ≡ length bs)
      × (report.success_count + report.failure_count ≡ length bs)
normal_scenario_passes msg_count bs rtt outcome m some_msg small fits all =
    let few : length bs < 2 ^ 64 = omega (arith, le_times (length bs) msg_count some_msg) in
    let e = run_all-AllServed 0 msg_count bs (0, rtt) some_msg small all (omega arith) in
    run_single_scenario_counts (codes "normal") (length bs) msg_count _ outcome m few fits
      (inr (e ∙ omega arith))
