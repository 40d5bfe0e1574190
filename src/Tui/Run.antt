-- ===== src/Tui/Run.antt =====
-- `run` of src/tui.rs: the terminal is set up, the event loop runs, and the terminal is
-- restored, unless a panic unwinds out of `run`.
-- The operations of `crossterm` and `ratatui` on the terminal are parameters, each with its success.
use rust_multichat_server.Base.{
  ◌≡◌, refl, ap, ◌∙◌, Bool, true, false, Option, none, some, List, [], if◌then◌else◌,
}
use rust_multichat_server.Protocol.{ClientMsg, Floats}
use rust_multichat_server.Tui.{new}
use rust_multichat_server.Tui.Frame.{Ratatui}
use rust_multichat_server.Tui.Loop.{
  UiEvent, LoopEnd, waiting, quit, failed, unsent, panicked, event_loop,
}

-- Whether the loop has ended without a panic, and with Ok.
unfoldable pub loop_result : LoopEnd → Option Bool
loop_result waiting = none
loop_result quit = some true
loop_result failed = some false
loop_result unsent = some false
loop_result panicked = none

pub record Operations (T : Type 0) : Type 0 where
  pub enable_raw_mode : T → Bool × T
  pub enter_screen : T → Bool × T  -- EnterAlternateScreen, EnableMouseCapture
  pub new_terminal : T → Bool × T
  pub draw_frames : T → T  -- what the frames of the loop do to the terminal
  pub disable_raw_mode : T → Bool × T
  pub leave_screen : T → Bool × T  -- LeaveAlternateScreen, DisableMouseCapture
  pub show_cursor : T → Bool × T

module _ {T : Type 0} where
  -- `op(..)?` in front of the rest.
  unfoldable pub and_then : (T → Bool × T) → (T → Bool × T) → T → Bool × T
  and_then op rest t =
      let done = op t in let after = rest done.1 in if done.0 then after else (false, done.1)

  unfoldable pub set_up : Operations T → T → Bool × T
  unfolding and_then
  set_up ops = and_then ops.enable_raw_mode (and_then ops.enter_screen ops.new_terminal)

  -- After the loop; its result is returned last.
  unfoldable pub restore : Operations T → Bool → T → Bool × T
  unfolding and_then
  restore ops result =
      and_then ops.disable_raw_mode
        (and_then ops.leave_screen (and_then ops.show_cursor (λ t. (result, t))))

-- How `run` ends, and the terminal then. A panic unwinds out of it and passes by the restore.
pub data Ending (T : Type 0) : Type 0 where
  running : Ending T
  returned : (result : Bool) (t : T) → Ending T
  aborted : (t : T) → Ending T

-- What the client has sent, and how `run` ends.
pub record Run (T : Type 0) : Type 0 where
  pub sent : List ClientMsg
  pub ending : Ending T

-- After the loop, on the terminal as the frames have left it.
unfoldable pub after_loop : {T : Type 0} → Operations T → LoopEnd → T → Ending T
unfolding restore loop_result
after_loop ops panicked t = aborted t
after_loop ops end t = elim (loop_result end) [
  | none ↦ running
  | some result ↦ let left = restore ops result t in returned left.0 left.1
]

-- `connected` is whether the connection comes up.
unfoldable pub run :
    {F T : Type 0}
    → Bool
    → Ratatui F
    → Operations T
    → Bool
    → Floats F
    → List (UiEvent F)
    → T
    → Run T
unfolding set_up after_loop event_loop new
run checks ui ops connected f32 events t =
    let ready = set_up ops t in
    let looped = event_loop checks ui events (new f32) in
    if connected
    then (if ready.0
        then record { sent = looped.0; ending = after_loop ops looped.2 (ops.draw_frames ready.1) }
        else record { sent = []; ending = returned false ready.1 })
    else record { sent = []; ending = returned false t }

-- What the terminal is in, and what the operations do to it when they succeed: raw mode, the
-- alternate screen, the capture of the mouse, and whether the cursor is shown.
pub record View (T : Type 0) : Type 0 where
  pub raw : T → Bool
  pub alternate : T → Bool
  pub mouse : T → Bool
  pub cursor : T → Bool

module _ {T : Type 0} where
  -- The three modes are kept.
  abbrev pub SameModes : View T → T → T → Type 0
  SameModes v t t' =
      (v.raw t' ≡ v.raw t) × (v.alternate t' ≡ v.alternate t) × (v.mouse t' ≡ v.mouse t)

  pub record Documented (ops : Operations T) (v : View T) : Type 0 where
    pub raw_off :
        (t : T) → (ops.disable_raw_mode t).0 ≡ true → v.raw (ops.disable_raw_mode t).1 ≡ false
    pub left :
        (t : T)
        → (ops.leave_screen t).0 ≡ true
        → (v.alternate (ops.leave_screen t).1 ≡ false) × (v.mouse (ops.leave_screen t).1 ≡ false)
    pub leave_keeps_raw : (t : T) → v.raw (ops.leave_screen t).1 ≡ v.raw t
    pub shown : (t : T) → (ops.show_cursor t).0 ≡ true → v.cursor (ops.show_cursor t).1 ≡ true
    pub show_keeps : (t : T) → SameModes v t (ops.show_cursor t).1
    pub raw_on : (t : T) → (ops.enable_raw_mode t).0 ≡ true → v.raw (ops.enable_raw_mode t).1 ≡ true
    pub enter_keeps_raw : (t : T) → v.raw (ops.enter_screen t).1 ≡ v.raw t

  -- The terminal is as a shell expects it.
  pub record IsRestored (v : View T) (t : T) : Type 0 where
    pub not_raw : v.raw t ≡ false
    pub main_screen : v.alternate t ≡ false
    pub no_mouse : v.mouse t ≡ false
    pub cursor_shown : v.cursor t ≡ true

  -- The restore succeeds if its three steps do, one after another.
  abbrev pub Restores : Operations T → T → Type 0
  Restores ops t =
      let raw_off = ops.disable_raw_mode t in
      let left = ops.leave_screen raw_off.1 in
      (raw_off.0 ≡ true) × (left.0 ≡ true) × ((ops.show_cursor left.1).0 ≡ true)

  restored :
      (ops : Operations T) (v : View T) (result : Bool) (t : T)
      → Documented ops v
      → Restores ops t
      → ((restore ops result t).0 ≡ result) × IsRestored v (restore ops result t).1
  unfolding restore and_then
  restored ops v result t d (a, b, c) =
      let t1 = (ops.disable_raw_mode t).1 in
      let t2 = (ops.leave_screen t1).1 in
      let keeps = d.show_keeps t2 in
      let out = d.left t1 b in
      rw (a, b, c)
        (
          refl,
          record {
            not_raw = keeps.0 ∙ d.leave_keeps_raw t1 ∙ d.raw_off t a;
            main_screen = keeps.1 ∙ out.0;
            no_mouse = keeps.2 ∙ out.1;
            cursor_shown = d.shown t2 c;
          },
        )

after_loop-returned :
    {T : Type 0} (ops : Operations T) (end : LoopEnd) (result : Bool) (t : T)
    → loop_result end ≡ some result
    → after_loop ops end t ≡ returned (restore ops result t).0 (restore ops result t).1
unfolding after_loop loop_result
after_loop-returned ops waiting result t e = cc e
after_loop-returned ops panicked result t e = cc e
after_loop-returned ops quit result t e = cc e
after_loop-returned ops failed result t e = cc e
after_loop-returned ops unsent result t e = cc e

-- If the connection and the three steps of the set-up come through, the event loop ends without a
-- panic, and the three steps of the restore come through, then in either build profile `run` returns
-- what the loop returned, its error included, and leaves the terminal out of raw mode, on the main
-- screen, without the capture of the mouse and with its cursor shown, whatever the frames did to it.
pub run-IsRestored :
    {F T : Type 0} (checks : Bool) (ui : Ratatui F) (ops : Operations T) (v : View T)
    (f32 : Floats F) (events : List (UiEvent F)) (t : T) (result : Bool)
    → Documented ops v
    → (set_up ops t).0 ≡ true
    → loop_result (event_loop checks ui events (new f32)).2 ≡ some result
    → Restores ops (ops.draw_frames (set_up ops t).1)
    → (t' : T) × ((run checks ui ops true f32 events t).ending ≡ returned result t')
      × IsRestored v t'
unfolding run
run-IsRestored checks ui ops v f32 events t result d ready ended back =
    let drawn = ops.draw_frames (set_up ops t).1 in
    let (same, whole) = restored ops v result drawn d back in
    let after = (restore ops result drawn).1 in
    let left =
      after_loop-returned ops (event_loop checks ui events (new f32)).2 result drawn ended in
    (after, rw (ready) (left ∙ ap (λ (r : Bool). returned r after) same), whole)

-- If the connection comes through and raw mode is enabled, but the alternate screen or the capture
-- of the mouse fails, `run` returns an error and leaves the terminal in raw mode.
pub run-left_raw :
    {F T : Type 0} (checks : Bool) (ui : Ratatui F) (ops : Operations T) (v : View T)
    (f32 : Floats F) (events : List (UiEvent F)) (t : T)
    → Documented ops v
    → (ops.enable_raw_mode t).0 ≡ true
    → (ops.enter_screen (ops.enable_raw_mode t).1).0 ≡ false
    → (t' : T) × ((run checks ui ops true f32 events t).ending ≡ returned false t')
      × (v.raw t' ≡ true)
unfolding run set_up and_then
run-left_raw checks ui ops v f32 events t d enabled refused = (
  (ops.enter_screen (ops.enable_raw_mode t).1).1,
  rw (enabled, refused) refl,
  d.enter_keeps_raw (ops.enable_raw_mode t).1 ∙ d.raw_on t enabled,
)
