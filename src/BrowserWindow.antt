-- ===== src/BrowserWindow.antt =====
-- internal/browserwindow/window.go: the state of a window, its operations and its events.
-- Event handlers are application code, which may cancel an event and call the window back: what
-- they do is the parameter `call`.
pub mod Options
pub mod Invariant
pub mod Closing
mod Tests
use mathlib.Core.Logic.{ite}
use golectron.Prelude.{
  Bool, true, false, not, ◌&&◌, ◌||◌, ℤ, pos, is_nonpositive, int_eq, Option, none, some, List, [],
  ◌∷◌, ◌++◌, if◌then◌else◌, check,
}
use golectron.Callbacks.{run_handlers}
use golectron.Text.{Text}
use Options.{NormalizedOptions, OptionsError, invalid_bounds}

pub data Event : Type 0 where
  event_show event_hide event_resize event_move event_minimize event_restore : Event
  event_maximize event_unmaximize event_enter_full event_leave_full : Event
  event_close event_closed : Event

pub Event-discrete : Discrete Event
Event-discrete = hlevel

pub data WindowError : Type 0 where
  window_closed : WindowError
  bounds_error : OptionsError → WindowError

pub record Rect : Type 0 where
  pub x : ℤ
  pub y : ℤ
  pub width : ℤ
  pub height : ℤ

pub record EventContext : Type 0 where
  pub event : Event
  pub cancelled : Bool

pub prevent_default : EventContext → EventContext
prevent_default ctx = record ctx { cancelled = true }

pub record Window (H : Type 0) : Type 0 where
  pub id : ℤ
  pub bounds : Rect
  pub normal : Rect
  pub visible : Bool
  pub minimized : Bool
  pub maximized : Bool
  pub fullscreen : Bool
  pub closed : Bool
  pub enabled : Bool
  pub title : Text
  pub handlers : Event → List H
  pub events : List Event

abbrev or_zero : Option ℤ → ℤ
or_zero none = pos 0
or_zero (some i) = i

pub validate_rect : Rect → Option WindowError
validate_rect bounds =
    if is_nonpositive bounds.width
    then some (bounds_error invalid_bounds)
    else if is_nonpositive bounds.height
    then some (bounds_error invalid_bounds)
    else none

module _ {H : Type 0} where
  pub new_window : {F : Type 0} → ℤ → NormalizedOptions F → Window H
  new_window id opts =
      let bounds : Rect = record {
        x = or_zero opts.x;
        y = or_zero opts.y;
        width = opts.width;
        height = opts.height;
      } in
      record {
        id = id;
        bounds = bounds;
        normal = bounds;
        visible = opts.show;
        minimized = false;
        maximized = false;
        fullscreen = false;
        closed = false;
        enabled = true;
        title = opts.title;
        handlers = λ event. [];
        events = [];
      }

  -- A `nil` handler is `none`.
  pub on : Event → Option H → Window H → Window H
  on event none w = w
  on event (some h) w = record w {
    handlers = λ e. ite (Event-discrete e event) (w.handlers e ++ h ∷ []) (w.handlers e);
  }

  pub ensure_open : Window H → Option WindowError
  ensure_open w = if w.closed then some window_closed else none

  pub is_visible : Window H → Bool
  is_visible w = w.visible && not w.closed

  pub is_enabled : Window H → Bool
  is_enabled w = w.enabled && not w.closed

  pub set_enabled : Bool → Window H → Option WindowError × Window H
  set_enabled enabled w = check (ensure_open w) w (none, record w { enabled = enabled })

-- The calls that change a window.
pub data Call (H : Type 0) : Type 0 where
  on_call : Event → Option H → Call H
  set_bounds_call : Rect → Call H
  set_size_call : ℤ → ℤ → Call H
  show_call hide_call minimize_call restore_call maximize_call unmaximize_call : Call H
  set_full_screen_call set_enabled_call : Bool → Call H
  close_call : Call H

module _ {H : Type 0} (call : H → EventContext → Window H → EventContext × Window H) where
  pub emit : Event → Window H → EventContext × Window H
  emit event w =
      run_handlers call (w.handlers event) (record { event = event; cancelled = false })
        (record w { events = w.events ++ event ∷ [] })

  -- `if test { w.emit(event) }`
  pub emit_if : Bool → Event → Window H → Window H
  emit_if test event w = if test then (emit event w).1 else w

  pub move_to : Rect → Window H → Window H
  move_to bounds w =
      let moved = not (int_eq bounds.x w.bounds.x) || not (int_eq bounds.y w.bounds.y) in
      let resized =
        not (int_eq bounds.width w.bounds.width) || not (int_eq bounds.height w.bounds.height) in
      let w' = record w {
        bounds = bounds;
        normal = if not w.maximized && not w.fullscreen then bounds else w.normal;
      } in
      emit_if resized event_resize (emit_if moved event_move w')

  pub set_bounds : Rect → Window H → Option WindowError × Window H
  set_bounds bounds w =
      check (validate_rect bounds) w (check (ensure_open w) w (none, move_to bounds w))

  pub set_size : ℤ → ℤ → Window H → Option WindowError × Window H
  set_size width height w = set_bounds (record w.bounds { width = width; height = height }) w

  -- The operations below that change a flag do so, and emit, only if it is not set that way yet.
  abbrev pub change_if : Bool → Event → Window H → Window H → Option WindowError × Window H
  change_if test event w' w = check (ensure_open w) w (none, if test then (emit event w').1 else w)

  pub show : Window H → Option WindowError × Window H
  show w = change_if (not w.visible) event_show (record w { visible = true }) w

  pub hide : Window H → Option WindowError × Window H
  hide w = change_if w.visible event_hide (record w { visible = false }) w

  pub minimize : Window H → Option WindowError × Window H
  minimize w = change_if (not w.minimized) event_minimize (record w { minimized = true }) w

  pub restore : Window H → Option WindowError × Window H
  restore w = change_if w.minimized event_restore (record w { minimized = false }) w

  pub maximize : Window H → Option WindowError × Window H
  maximize w = change_if (not w.maximized) event_maximize (record w { maximized = true }) w

  pub unmaximize : Window H → Option WindowError × Window H
  unmaximize w =
      change_if w.maximized event_unmaximize (record w { maximized = false; bounds = w.normal }) w

  pub set_full_screen : Bool → Window H → Option WindowError × Window H
  set_full_screen true w =
      change_if (not w.fullscreen) event_enter_full (record w { fullscreen = true }) w
  set_full_screen false w =
      change_if w.fullscreen event_leave_full (record w { fullscreen = false; bounds = w.normal }) w

  pub close : Window H → Bool × Window H
  close w =
      if w.closed
      then (false, w)
      else let (ctx, w') = emit event_close w in
        if ctx.cancelled
        then (false, w')
        else (true, (emit event_closed (record w' { closed = true; visible = false })).1)

  pub perform : Call H → Window H → Window H
  perform (on_call event h) w = on event h w
  perform (set_bounds_call bounds) w = (set_bounds bounds w).1
  perform (set_size_call width height) w = (set_size width height w).1
  perform show_call w = (show w).1
  perform hide_call w = (hide w).1
  perform minimize_call w = (minimize w).1
  perform restore_call w = (restore w).1
  perform maximize_call w = (maximize w).1
  perform unmaximize_call w = (unmaximize w).1
  perform (set_full_screen_call fullscreen) w = (set_full_screen fullscreen w).1
  perform (set_enabled_call enabled) w = (set_enabled enabled w).1
  perform close_call w = (close w).1

  pub run : List (Call H) → Window H → Window H
  run [] w = w
  run (c ∷ cs) w = run cs (perform c w)
