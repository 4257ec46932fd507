-- ===== src/BrowserWindow/Closing.antt =====
-- Closing a window, a closed window, and the way back from the maximized state.
use golectron.Prelude.{
  ◌≡◌, ◌≢◌, refl, Bool, true, false, ◌||◌, Option, none, some, List, [], ◌∷◌, ◌++◌, append_assoc,
  map, if◌then◌else◌, any, arith, check-elim, ap, ◌∙◌,
}
use golectron.Callbacks.{run_handlers, run_handlers_pure}
use golectron.BrowserWindow.{
  Event, event_resize, event_move, event_close, event_closed, event_maximize, event_unmaximize,
  WindowError, window_closed, Rect, EventContext, prevent_default, Window, Call, on_call,
  set_bounds_call, set_size_call, set_full_screen_call, validate_rect, ensure_open, on, is_visible,
  is_enabled, set_enabled, emit, emit_if, move_to, set_bounds, set_size, show, hide, minimize,
  restore, maximize, unmaximize, set_full_screen, close, perform, run,
}
use golectron.BrowserWindow.Invariant.{IsSound}

abbrev pub logs : {H : Type 0} → List Event → Window H → Window H
logs es w = record w { events = w.events ++ es }

module _ {H : Type 0} (call : H → EventContext → Window H → EventContext × Window H) (w : Window H)
    (gone : w.closed ≡ true) where
  -- No call but a new handler changes a closed window.
  pub perform-closed : (c : Call H) → record (perform call c w) { handlers = w.handlers } ≡ w
  unfolding perform on ensure_open set_bounds set_size set_enabled show hide minimize restore
      maximize unmaximize set_full_screen close
  perform-closed (on_call e none) = refl
  perform-closed (on_call e (some h)) = refl
  perform-closed (set_bounds_call r) = ground arith
  perform-closed (set_size_call a b) = ground arith
  perform-closed (set_full_screen_call true) = ground arith
  perform-closed (set_full_screen_call false) = ground arith
  perform-closed _ = ground arith

  -- Every operation on a closed window reports it, `SetBounds` unless the bounds are refused
  -- first, and `Close` returns false; the window counts as neither visible nor enabled.
  pub closed_refuses :
      ((r : Rect) → (set_bounds call r w).0 ≢ none)
      × ((show call w).0 ≡ some window_closed)
      × ((hide call w).0 ≡ some window_closed)
      × ((minimize call w).0 ≡ some window_closed)
      × ((restore call w).0 ≡ some window_closed)
      × ((maximize call w).0 ≡ some window_closed)
      × ((unmaximize call w).0 ≡ some window_closed)
      × ((b : Bool) → (set_full_screen call b w).0 ≡ some window_closed)
      × ((b : Bool) → (set_enabled b w).0 ≡ some window_closed)
      × ((close call w).0 ≡ false)
      × (is_visible w ≡ false)
      × (is_enabled w ≡ false)
  unfolding ensure_open set_bounds set_enabled show hide minimize restore maximize unmaximize
      set_full_screen close is_visible is_enabled
  closed_refuses = (
    (λ r. ground arith),
    ground arith,
    ground arith,
    ground arith,
    ground arith,
    ground arith,
    ground arith,
    (λ b. elim b as (λ b. (set_full_screen call b w).0 ≡ some window_closed) [
      | true ↦ ground arith
      | false ↦ ground arith
    ]),
    (λ b. ground arith),
    ground arith,
    ground arith,
    ground arith,
  )

-- Handlers that observe an event, may cancel it, and do not call the window back.
module _ {H : Type 0} (stops : H → Bool) where
  abbrev pub observing : H → EventContext → Window H → EventContext × Window H
  observing h ctx w = (if stops h then prevent_default ctx else ctx, w)

  handlers_observe :
      (hs : List H) (ctx : EventContext) (w : Window H)
      → ((run_handlers observing hs ctx w).0.cancelled ≡ (ctx.cancelled || any stops hs))
        × ((run_handlers observing hs ctx w).1 ≡ w)
  unfolding run_handlers prevent_default
  handlers_observe [] ctx w = (ground arith, refl)
  handlers_observe (h ∷ hs) ctx w =
      ground (arith, handlers_observe hs ctx w, handlers_observe hs (prevent_default ctx) w)

  emit_observed :
      (e : Event) (w : Window H)
      → ((emit observing e w).0.cancelled ≡ any stops (w.handlers e))
        × ((emit observing e w).1 ≡ logs (e ∷ []) w)
  unfolding emit
  emit_observed e w = handlers_observe (w.handlers e) _ (logs (e ∷ []) w)

  -- What `Close` does, told at once.
  abbrev pub close_outcome : Window H → Bool × Window H
  close_outcome w =
      if w.closed
      then (false, w)
      else if any stops (w.handlers event_close)
      then (false, logs (event_close ∷ []) w)
      else (
        true,
        logs (event_close ∷ event_closed ∷ []) (record w { closed = true; visible = false }),
      )

  -- Where handlers leave the window alone, `Close` closes an open window exactly when no `close`
  -- handler cancels: it then hides it and
  -- logs `close` and `closed`, once each. A cancelled close logs `close` and changes nothing else.
  pub close-close_outcome : (w : Window H) → close observing w ≡ close_outcome w
  unfolding close
  close-close_outcome w =
      rw ((emit_observed event_close w).0, (emit_observed event_close w).1)
        (rw
          ((emit_observed event_closed
            (record (logs (event_close ∷ []) w) { closed = true; visible = false })).1)
          (rw append_assoc refl))

-- A `close` handler that closes the window itself the first time that it is called, and does
-- nothing when that inner call emits `close` again.
abbrev pub closing : {H : Type 0} → H → EventContext → Window H → EventContext × Window H
closing h ctx w = (ctx, (close (observing (λ _. false)) w).1)

module _ {H : Type 0} (h : H) (w : Window H) (opened : w.closed ≡ false)
    (one : w.handlers event_close ≡ h ∷ []) (nobody : w.handlers event_closed ≡ []) where
  closing_window : Window H
  closing_window =
      logs (event_close ∷ event_close ∷ event_closed ∷ [])
        (record w { closed = true; visible = false })

  emit-closing :
      emit closing event_close w
      ≡ (record { event = event_close; cancelled = false }, closing_window)
  unfolding emit run_handlers closing_window
  emit-closing = rw one (
      rw (close-close_outcome (λ _. false) (logs (event_close ∷ []) w)) (
        ground (arith, append_assoc w.events (event_close ∷ []) (event_close ∷ event_closed ∷ []))))

  emit_nobody :
      (emit closing event_closed closing_window).1 ≡ logs (event_closed ∷ []) closing_window
  unfolding emit run_handlers closing_window
  emit_nobody = rw nobody refl

  -- Where the one `close` handler of an open window closes the window itself, and no handler
  -- listens to `closed`, `Close` logs `closed` twice.
  pub close_twice :
      (close closing w).1.events
      ≡ w.events ++ event_close ∷ event_close ∷ event_closed ∷ event_closed ∷ []
  unfolding close closing_window
  close_twice =
      simp (opened, emit-closing)
        (ap (λ (v : Window H). v.events) emit_nobody
          ∙ append_assoc w.events (event_close ∷ event_close ∷ event_closed ∷ [])
              (event_closed ∷ []))

module _ {H : Type 0} (call : H → EventContext → Window H → EventContext × Window H)
    (pure : (h : H) (ctx : EventContext) (w : Window H) → (call h ctx w).1 ≡ w) where
  emit_pure : (e : Event) (w : Window H) → (emit call e w).1 ≡ logs (e ∷ []) w
  unfolding emit
  emit_pure e w = run_handlers_pure call pure (w.handlers e) _ _

  -- A maximized open window that remembers `r` as its normal bounds.
  record Remembers (r : Rect) (w : Window H) : Type 0 where
    is_open : w.closed ≡ false
    is_maximized : w.maximized ≡ true
    keeps_normal : w.normal ≡ r

  emit_if-Remembers :
      (b : Bool) (e : Event) (r : Rect) (w : Window H)
      → Remembers r w
      → Remembers r (emit_if call b e w)
  unfolding emit_if
  emit_if-Remembers true e r w m = rw (emit_pure e w) (ground arith)
  emit_if-Remembers false e r w m = m

  set_bounds-Remembers :
      (b r : Rect) (w : Window H) → Remembers r w → Remembers r (set_bounds call b w).1
  unfolding set_bounds move_to
  set_bounds-Remembers b r w m =
      check-elim (λ (x : Option WindowError × Window H). Remembers r x.1) (validate_rect b)
        (λ _ _. m)
        λ _.
          check-elim (λ (x : Option WindowError × Window H). Remembers r x.1) (ensure_open w)
            (λ _ _. m)
            λ _.
              emit_if-Remembers _ event_resize r _
                (emit_if-Remembers _ event_move r _ (ground arith))

  resizes-Remembers :
      (bs : List Rect) (r : Rect) (w : Window H)
      → Remembers r w
      → Remembers r (run call (map set_bounds_call bs) w)
  unfolding run perform
  resizes-Remembers [] r w m = m
  resizes-Remembers (b ∷ bs) r w m =
      resizes-Remembers bs r (set_bounds call b w).1 (set_bounds-Remembers b r w m)

  maximize-Remembers :
      (w : Window H)
      → IsSound w
      → w.closed ≡ false
      → w.maximized ≡ false
      → w.fullscreen ≡ false
      → Remembers w.bounds (maximize call w).1
  unfolding maximize ensure_open
  maximize-Remembers w s opened plain window = ground (
    arith,
    emit_pure event_maximize (record w { maximized = true }),
    s.normal_bounds plain window,
  )

  unmaximize-Remembers :
      (r : Rect) (w : Window H)
      → Remembers r w
      → ((unmaximize call w).1.bounds ≡ r) × ((unmaximize call w).1.maximized ≡ false)
  unfolding unmaximize ensure_open
  unmaximize-Remembers r w m =
      ground (arith, emit_pure event_unmaximize (record w { maximized = false; bounds = w.normal }))

  -- Whatever bounds a sound, open, ordinary window is given while it is maximized, `Unmaximize`
  -- brings back the bounds from before `Maximize`, where event handlers only observe.
  pub unmaximize-maximize :
      (w : Window H) (bs : List Rect)
      → IsSound w
      → w.closed ≡ false
      → w.maximized ≡ false
      → w.fullscreen ≡ false
      → let w' = run call (map set_bounds_call bs) (maximize call w).1 in
        ((unmaximize call w').1.bounds ≡ w.bounds) × ((unmaximize call w').1.maximized ≡ false)
  unmaximize-maximize w bs s opened plain window =
      unmaximize-Remembers w.bounds _
        (resizes-Remembers bs w.bounds _ (maximize-Remembers w s opened plain window))
