-- ===== src/AppLifecycle.antt =====
-- internal/applifecycle/lifecycle.go: the events of `app`, from start to quit.
-- Handlers and `whenReady` callbacks are application code that runs with the lock released: what
-- they do to the event and, by calling the app back, to the app is the parameter `Client`.
pub mod Invariant
pub mod Quitting
mod Tests
use mathlib.Core.Logic.{ite}
use golectron.Prelude.{
  Bool, true, false, ℤ, pos, Option, none, some, List, [], ◌∷◌, ◌++◌, if◌then◌else◌,
}
use golectron.Callbacks.{run_handlers, run_waiters}

pub data Event : Type 0 where
  event_will_finish_launching event_ready event_window_all_closed : Event
  event_before_quit event_will_quit event_quit : Event

pub Event-discrete : Discrete Event
Event-discrete = hlevel

pub data LifecycleError : Type 0 where
  already_ready : LifecycleError

pub record EventContext : Type 0 where
  pub event : Event
  pub exit_code : ℤ
  pub cancelled : Bool

pub prevent_default : EventContext → EventContext
prevent_default ctx = record ctx { cancelled = true }

pub record App (H W : Type 0) : Type 0 where
  pub handlers : Event → List H
  pub ready : Bool
  pub quitting : Bool
  pub quit_exit_code : ℤ
  pub ready_waiters : List W
  pub emitted_events : List Event

pub record Client (H W : Type 0) : Type 0 where
  pub call : H → EventContext → App H W → EventContext × App H W
  pub wake : W → App H W → App H W

module _ {H W : Type 0} where
  pub new : App H W
  new = record {
    handlers = λ event. [];
    ready = false;
    quitting = false;
    quit_exit_code = pos 0;
    ready_waiters = [];
    emitted_events = [];
  }

  -- A `nil` handler is `none`.
  pub on : Event → Option H → App H W → App H W
  unfolding Event-discrete
  on event none app = app
  on event (some h) app = record app {
    handlers = λ e. ite (Event-discrete e event) (app.handlers e ++ h ∷ []) (app.handlers e);
  }

-- The calls that change an app, and a history of them.
pub data Call (H W : Type 0) : Type 0 where
  on_call : Event → Option H → Call H W
  emit_call : Event → ℤ → Call H W
  when_ready_call : Option W → Call H W
  mark_ready_call window_all_closed_call : Call H W
  quit_call exit_call : ℤ → Call H W

module _ {H W : Type 0} (client : Client H W) where
  pub emit : Event → ℤ → App H W → EventContext × App H W
  emit event exit_code app =
      run_handlers client.call (app.handlers event)
        (record { event = event; exit_code = exit_code; cancelled = false })
        (record app { emitted_events = app.emitted_events ++ event ∷ [] })

  pub emit_cancellable : Event → ℤ → App H W → Bool × App H W
  emit_cancellable event exit_code app =
      let (ctx, app') = emit event exit_code app in (ctx.cancelled, app')

  pub when_ready : Option W → App H W → App H W
  when_ready none app = app
  when_ready (some w) app =
      if app.ready
      then client.wake w app
      else record app { ready_waiters = app.ready_waiters ++ w ∷ [] }

  pub mark_ready : App H W → Option LifecycleError × App H W
  mark_ready app =
      if app.ready
      then (some already_ready, app)
      else let app' = record app { ready = true; ready_waiters = [] } in
        let launched = (emit event_will_finish_launching (pos 0) app').1 in
        let announced = (emit event_ready (pos 0) launched).1 in
        (none, run_waiters client.wake app.ready_waiters announced)

  pub exit : ℤ → App H W → App H W
  exit exit_code app =
      (emit event_quit exit_code (record app { quitting = true; quit_exit_code = exit_code })).1

  -- The tail of `Quit`, from the second cancellable event on.
  pub confirm_quit : ℤ → App H W → Bool × App H W
  confirm_quit exit_code app =
      let (cancelled, app') = emit_cancellable event_will_quit exit_code app in
      if cancelled then (false, app') else (true, exit exit_code app')

  pub quit : ℤ → App H W → Bool × App H W
  quit exit_code app =
      let (cancelled, app') = emit_cancellable event_before_quit exit_code app in
      if cancelled then (false, app') else confirm_quit exit_code app'

  abbrev pub quit_unless : List H → App H W → Bool × App H W
  quit_unless [] app = quit (pos 0) app
  quit_unless (h ∷ hs) app = (false, app)

  pub window_all_closed : App H W → Bool × App H W
  window_all_closed app =
      let app' = (emit event_window_all_closed (pos 0) app).1 in
      quit_unless (app'.handlers event_window_all_closed) app'

  pub perform : Call H W → App H W → App H W
  perform (on_call event h) app = on event h app
  perform (emit_call event exit_code) app = (emit event exit_code app).1
  perform (when_ready_call w) app = when_ready w app
  perform mark_ready_call app = (mark_ready app).1
  perform window_all_closed_call app = (window_all_closed app).1
  perform (quit_call exit_code) app = (quit exit_code app).1
  perform (exit_call exit_code) app = exit exit_code app

  pub run : List (Call H W) → App H W → App H W
  run [] app = app
  run (c ∷ cs) app = run cs (perform c app)
