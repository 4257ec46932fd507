-- ===== src/BrowserWindow/Tests.antt =====
-- Runs of the window of internal/browserwindow, and the theorems at concrete windows.
use golectron.Prelude.{ℕ, ◌≡◌, refl, Bool, true, false, pos, negsuc, none, some, [], ◌∷◌, ◌==◌}
use golectron.Callbacks.{run_handlers}
use golectron.Text.{Text, codes, has_prefix}
use golectron.BrowserWindow.Options.{Scale, ConstructorOptions, NormalizedOptions}
use golectron.BrowserWindow.{
  event_resize, event_close, event_closed, event_maximize, event_unmaximize, EventContext, Rect,
  Window, set_size_call, maximize_call, unmaximize_call, validate_rect, ensure_open, emit, emit_if,
  move_to, set_bounds, set_size, maximize, unmaximize, close, perform, run,
}
use golectron.BrowserWindow.Invariant.{IsSound}
use golectron.BrowserWindow.Closing.{observing, closing, close_twice}

abbrev scale : Scale ℕ
scale = record { one = 1; is_usable = λ f. f == 1 }

abbrev slash : Text → Bool
slash path = has_prefix path (codes "/")

abbrev options : ConstructorOptions ℕ
options = record {
  width = some (pos 640);
  height = none;
  x = none;
  y = none;
  use_content_size = false;
  center = true;
  show = none;
  parent_id = pos 0;
  modal = false;
  title = codes "  Main ";
  web_preferences = record {
    dev_tools = none;
    node_integration = false;
    node_integration_in_worker = false;
    node_integration_in_sub_frames = false;
    context_isolation = none;
    sandbox = true;
    preload = codes "/app/preload.js";
    background_throttling = none;
    focus_on_navigation = none;
    offscreen = record { enabled = true; device_scale_factor = none };
  };
}

abbrev normalized : NormalizedOptions ℕ
normalized = record {
  width = pos 640;
  height = pos 600;
  x = none;
  y = none;
  use_content_size = false;
  center = true;
  show = true;
  parent_id = pos 0;
  modal = false;
  title = codes "Main";
  web_preferences = record {
    dev_tools = true;
    node_integration = false;
    node_integration_in_worker = false;
    node_integration_in_sub_frames = false;
    context_isolation = true;
    sandbox = true;
    preload = codes "/app/preload.js";
    background_throttling = true;
    focus_on_navigation = true;
    offscreen = record { enabled = true; device_scale_factor = some 1 };
  };
}

abbrev rect : ℕ → Rect
rect n = record { x = pos 0; y = negsuc 4; width = pos n; height = pos 100 }

abbrev sample : Window ℕ
sample = record {
  id = pos 1;
  bounds = rect 300;
  normal = rect 300;
  visible = true;
  minimized = false;
  maximized = false;
  fullscreen = false;
  closed = false;
  enabled = true;
  title = codes "Main";
  handlers = λ e. elim e [ event_close ↦ 1 ∷ [] | _ ↦ [] ];
  events = [];
}

abbrev quiet : ℕ → EventContext → Window ℕ → EventContext × Window ℕ
quiet = observing (λ h. false)

resized_log :
    (run quiet
      (maximize_call ∷ set_size_call (pos 500) (pos 100) ∷ unmaximize_call ∷ [])
      sample).events
    ≡ event_maximize ∷ event_resize ∷ event_unmaximize ∷ []
unfolding run perform maximize unmaximize set_size set_bounds validate_rect ensure_open move_to
    emit_if emit run_handlers
resized_log = refl

abbrev shut : Window ℕ
shut = record sample { closed = true; visible = false }

close_twice_example :
    (close closing sample).1.events ≡ event_close ∷ event_close ∷ event_closed ∷ event_closed ∷ []
close_twice_example = close_twice 1 sample refl refl refl

sample-IsSound : IsSound sample
unfolding validate_rect
sample-IsSound = record {
  normal_bounds = λ _ _. refl;
  bounds_valid = refl;
  normal_valid = refl;
  closed_hidden = λ c. cc;
}
