-- ===== src/AppLifecycle/Tests.antt =====
-- Runs of the lifecycle of internal/applifecycle, and the theorems at concrete apps. Handler 1
-- cancels, handler 0 observes, and a waiting callback asks for one more `quit` event.
use golectron.Prelude.{ℕ, ◌≡◌, refl, Bool, false, pos, some, List, [], ◌∷◌, ◌==◌}
use golectron.Callbacks.{run_handlers, run_waiters}
use golectron.AppLifecycle.{
  event_ready, event_window_all_closed, event_before_quit, event_will_quit, event_quit, App, Client,
  Call, on_call, when_ready_call, mark_ready_call, window_all_closed_call, Event-discrete,
  prevent_default, new, on, emit, emit_cancellable, when_ready, mark_ready, exit, confirm_quit,
  quit, window_all_closed, perform, run, event_will_finish_launching,
}
use golectron.AppLifecycle.Quitting.{logs, observing, quit-quit_outcome}

abbrev stops : ℕ → Bool
stops h = h == 1

abbrev wake : ℕ → App ℕ ℕ → App ℕ ℕ
wake w a = logs (event_quit ∷ []) a

abbrev client : Client ℕ ℕ
client = observing stops wake

abbrev history : List (Call ℕ ℕ)
history =
    on_call event_will_quit (some 1)
    ∷ when_ready_call (some 7)
    ∷ mark_ready_call
    ∷ window_all_closed_call
    ∷ []

abbrev vetoing : App ℕ ℕ
vetoing = record {
  handlers = λ e. elim e [ event_will_quit ↦ 0 ∷ 1 ∷ [] | _ ↦ [] ];
  ready = false;
  quitting = false;
  quit_exit_code = pos 0;
  ready_waiters = 7 ∷ [];
  emitted_events = [];
}

-- A cancelled quit, through the last window.
history_log :
    (run client history new).emitted_events
    ≡ event_will_finish_launching ∷ event_ready ∷ event_quit ∷ event_window_all_closed
      ∷ event_before_quit ∷ event_will_quit ∷ []
unfolding run perform on when_ready mark_ready window_all_closed quit confirm_quit exit
    emit_cancellable emit run_handlers run_waiters prevent_default new Event-discrete
history_log = refl

quit-quit_outcome_example :
    quit client (pos 3) vetoing ≡ (false, logs (event_before_quit ∷ event_will_quit ∷ []) vetoing)
quit-quit_outcome_example = quit-quit_outcome stops wake (pos 3) vetoing
