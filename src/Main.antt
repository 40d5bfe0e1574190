-- ===== src/Main.antt =====
-- src/main.rs: the command line and what each command starts. What `clap` reads from the arguments
-- is the value of an option, or none where it is not given; what the sockets, the clients, the user
-- and the bots do is an argument.
use rust_multichat_server.Base.{
  ℕ, ◌+◌, ◌≡◌, refl, sym, subst, ◌∙◌, Bool, Option, none, some, List, codes, length, arith,
}
use rust_multichat_server.Protocol.{Text, Floats}
use rust_multichat_server.Metrics.{Woken, Report, start_reporter}
use rust_multichat_server.Server
use rust_multichat_server.Server.{Server, on_ctrl_c}
use rust_multichat_server.System.{main_hub}
use rust_multichat_server.Server.Listen.{Sockets, listen_at}
use rust_multichat_server.Tui
use rust_multichat_server.Tui.Frame.{Ratatui}
use rust_multichat_server.Tui.Loop.{UiEvent}
use rust_multichat_server.Tui.Run.{Operations, Run}
use rust_multichat_server.Strings.{text_eq}
use rust_multichat_server.Bot.Kind.{BotType}
use rust_multichat_server.Bot.Rtt.{RttCounter}
use rust_multichat_server.Bot.Scenario.{ScenarioReport, Joined, Measured}
use rust_multichat_server.Bot.Scenario.Single.{Ended, reported, run_single_scenario, run_scenario}
use rust_multichat_server.Bot.Echo.Runs.{Bot, run_all, AllServed, normal_scenario_passes}

pub data Command : Type 0 where
  server : (addr : Text) → Command
  client : (addr : Text) → Command
  bot_test : (count : ℕ) (mode : Text) (msg : ℕ) (ratio : Option Text) → Command

unfoldable pub or_default {ℓ} : {A : Type ℓ} → A → Option A → A
or_default d none = d
or_default d (some a) = a

unfoldable pub default_addr : Text
default_addr = codes "127.0.0.1:8080"

-- The commands, each from the options that are given.
unfoldable pub server_args : Option Text → Command
unfolding or_default default_addr
server_args addr = server (or_default default_addr addr)

unfoldable pub client_args : Option Text → Command
unfolding or_default default_addr
client_args addr = client (or_default default_addr addr)

unfoldable pub bot_test_args : Option ℕ → Option Text → Option ℕ → Option Text → Command
unfolding or_default
bot_test_args count mode msg ratio =
    bot_test (or_default 500 count) (or_default (codes "normal") mode) (or_default 100 msg) ratio

-- What the world does: the sockets of the server, whether a client connects to an address, the events
-- of the server, those of its reporter, the terminal and what happens at it, and how the bots fare.
pub record World (F E A S L T : Type 0) : Type 0 where
  pub floats : Floats F
  pub sockets : Sockets A S L
  pub connects : Text → Bool
  pub clients : List Server.Event
  pub woken : List Woken
  pub per_second : ℕ → ℕ
  pub ui : Ratatui F
  pub screen : Operations T
  pub terminal : T
  pub typed : List (UiEvent F)
  pub received : ℕ
  pub outcome : ℕ × BotType → Joined
  pub mixed_outcome : ℕ × BotType → Option Joined
  pub measured : Measured E

-- What `main` has come to.
pub data Ran (F E T : Type 0) : Type 0 where
  refused : Ran F E T  -- the address cannot be listened at
  served : Server F → List Report → Ran F E T
  shown : Run T → Ran F E T
  ended : Ended E → Ran F E T

unfoldable pub main : {F E A S L T : Type 0} → Bool → World F E A S L T → Command → Ran F E T
unfolding main_hub start_reporter Server.run Server.start listen_at Tui.Run.run run_scenario
main checks w (server addr) = elim (listen_at w.sockets addr) [
  | none ↦ refused
  | some listener ↦
      served (Server.run w.clients (Server.start main_hub.room))
        (start_reporter w.per_second w.woken)
]
main checks w (client addr) =
    shown (Tui.Run.run checks w.ui w.screen (w.connects addr) w.floats w.typed w.terminal)
main checks w (bot_test count mode msg ratio) =
    ended (run_scenario checks mode count msg ratio w.received w.outcome w.mixed_outcome w.measured)

normal_run :
    {F E A S L T : Type 0} (checks : Bool) (w : World F E A S L T) (count msg : ℕ)
    (report : ScenarioReport E)
    → run_single_scenario (codes "normal") count msg w.received w.outcome w.measured ≡ some report
    → main checks w (bot_test count (codes "normal") msg none) ≡ ended (reported report)
unfolding main run_scenario text_eq
normal_run checks w count msg report e = rw (run_scenario, e) refl

-- The test command without options runs 500 normal bots with 100 messages each: if every bot
-- connects, sends its messages and gets at least as many of its own back, it ends with a report on
-- 500 bots.
pub main_bot_test :
    {F E A S L T : Type 0} (checks : Bool) (w : World F E A S L T) (bs : List Bot)
    (rtt : RttCounter)
    → length bs ≡ 500
    → AllServed 0 100 bs
    → w.received ≡ (run_all 0 100 bs (0, rtt)).0
    → (report : ScenarioReport E) × (main checks w (bot_test_args none none none none)
        ≡ ended (reported report))
      × (report.total_bots ≡ 500)
      × (report.success_count + report.failure_count ≡ 500)
unfolding bot_test_args or_default
main_bot_test checks w bs rtt n all got =
    let (report, e, total, counted) =
      normal_scenario_passes 100 bs rtt w.outcome w.measured (omega arith) (omega arith)
        (omega (arith, n)) all in
    let run =
      subst
        (λ received.
          run_single_scenario (codes "normal") (length bs) 100 received w.outcome w.measured
          ≡ some report)
        (sym got) e in
    let at_500 =
      subst
        (λ count.
          run_single_scenario (codes "normal") count 100 w.received w.outcome w.measured
          ≡ some report)
        n run in
    (report, normal_run checks w 500 100 report at_500, total ∙ n, counted ∙ n)
