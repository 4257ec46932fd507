-- ===== src/AppLifecycle/Quitting.antt =====
-- The order of events on start and on quit, for handlers that observe an event and may cancel it,
-- and do not call the app back.
use golectron.Prelude.{
  ◌≡◌, refl, Bool, true, false, ℤ, pos, Option, none, some, List, [], ◌∷◌, ◌++◌, append_assoc,
  if◌then◌else◌, any, arith, ap, Bool-cases, if-elim, inl, inr,
}
use golectron.Callbacks.{run_handlers, run_waiters, run_waiters_inv}
use golectron.AppLifecycle.{
  Event, LifecycleError, already_ready, event_will_finish_launching, event_ready, event_before_quit,
  event_will_quit, event_quit, EventContext, App, Client, prevent_default, emit, emit_cancellable,
  mark_ready, on, exit, confirm_quit, quit,
}
use golectron.AppLifecycle.Invariant.{Keeps, emit-Keeps, IsStable}

abbrev pub logs : {H W : Type 0} → List Event → App H W → App H W
logs es a = record a { emitted_events = a.emitted_events ++ es }

module _ {H W : Type 0} (stops : H → Bool) (wake : W → App H W → App H W) where
  -- `stops h` says whether the handler `h` calls `preventDefault`.
  abbrev pub observing : Client H W
  observing = record {
    call = λ h ctx a. (if stops h then prevent_default ctx else ctx, a);
    wake = wake;
  }

  abbrev after : List H → EventContext → EventContext
  after hs ctx = if any stops hs then prevent_default ctx else ctx

  after_prevented :
      (hs : List H) (ctx : EventContext) → after hs (prevent_default ctx) ≡ prevent_default ctx
  unfolding prevent_default
  after_prevented hs ctx = ground arith

  handlers_observe :
      (hs : List H) (ctx : EventContext) (a : App H W)
      → run_handlers observing.call hs ctx a ≡ (after hs ctx, a)
  unfolding run_handlers
  handlers_observe [] ctx a = refl
  handlers_observe (h ∷ hs) ctx a = elim (Bool-cases (stops h)) [
    | inl e ↦ rw e (rw (handlers_observe hs (prevent_default ctx) a, after_prevented hs ctx))
    | inr e ↦ rw e (handlers_observe hs ctx a)
  ]

  emit_observed :
      (e : Event) (n : ℤ) (a : App H W)
      → emit observing e n a ≡ (
        after (a.handlers e) (record { event = e; exit_code = n; cancelled = false }),
        logs (e ∷ []) a,
      )
  unfolding emit
  emit_observed e n a = handlers_observe (a.handlers e) _ _

  cancellable_observed :
      (e : Event) (n : ℤ) (a : App H W)
      → emit_cancellable observing e n a ≡ (any stops (a.handlers e), logs (e ∷ []) a)
  unfolding emit_cancellable prevent_default
  cancellable_observed e n a = rw (emit_observed e n a) (ground arith)

  exit_observed :
      (n : ℤ) (a : App H W)
      → exit observing n a
        ≡ logs (event_quit ∷ []) (record a { quitting = true; quit_exit_code = n })
  unfolding exit
  exit_observed n a = ap (λ (r : EventContext × App H W). r.1) (emit_observed event_quit n _)

  -- What `Quit` does, told at once.
  abbrev pub quit_outcome : ℤ → App H W → Bool × App H W
  quit_outcome n a =
      if any stops (a.handlers event_before_quit)
      then (false, logs (event_before_quit ∷ []) a)
      else if any stops (a.handlers event_will_quit)
      then (false, logs (event_before_quit ∷ event_will_quit ∷ []) a)
      else (
        true,
        logs (event_before_quit ∷ event_will_quit ∷ event_quit ∷ [])
            (record a { quitting = true; quit_exit_code = n }),
      )

  -- Where handlers leave the app alone, `Quit` asks the `before-quit` handlers, then the `will-quit`
  -- handlers, and stops at the first event that is cancelled; otherwise it records the exit code and
  -- emits `quit`. It returns true exactly then, and a cancelled quit leaves all but the log as it was.
  pub quit-quit_outcome : (n : ℤ) (a : App H W) → quit observing n a ≡ quit_outcome n a
  unfolding quit confirm_quit
  quit-quit_outcome n a = simp (cancellable_observed, exit_observed, append_assoc)

  -- Where handlers leave the app alone, `MarkReady` on an app that is not ready emits its two events
  -- in order, and then serves the
  -- callbacks that wait, in the order of their registration, on an app that is ready.
  pub mark_ready_order :
      (a : App H W)
      → a.ready ≡ false
      → mark_ready observing a ≡ (
        none,
        run_waiters wake a.ready_waiters (
            logs
              (event_will_finish_launching ∷ event_ready ∷ [])
              (record a { ready = true; ready_waiters = [] })),
      )
  unfolding mark_ready
  mark_ready_order a h = rw h (simp (emit_observed, append_assoc))

ready-stable : {H W : Type 0} → IsStable (λ (b : App H W). b.ready ≡ true)
unfolding on
ready-stable = record {
  logged = λ e b p. p;
  added = λ e h b p. elim h as (λ g. (on e g b).ready ≡ true) [ none ↦ p | some g ↦ p ];
  waiting = λ w b waits p. p;
  readied = λ b p. refl;
  stopped = λ n b p. p;
}

ready-mark_ready :
    {H W : Type 0} (client : Client H W) (a : App H W)
    → Keeps client (λ b. b.ready ≡ true)
    → (mark_ready client a).1.ready ≡ true
unfolding mark_ready
ready-mark_ready client a keeps =
    let emits = emit-Keeps client (λ b. b.ready ≡ true) ready-stable keeps in
    if-elim (λ (r : Option LifecycleError × App _ _). r.1.ready ≡ true) a.ready (λ h. h)
      λ _.
        run_waiters_inv client.wake (λ b. b.ready ≡ true) keeps.woken a.ready_waiters _
          (emits event_ready (pos 0) _ (emits event_will_finish_launching (pos 0) _ refl))

-- The second `MarkReady` is refused and changes nothing, whatever the callbacks did in the first,
-- as long as they do not take `ready` back.
pub mark_ready_twice :
    {H W : Type 0} (client : Client H W) (a : App H W)
    → Keeps client (λ b. b.ready ≡ true)
    → a.ready ≡ false
    → ((mark_ready client a).0 ≡ none)
      × (mark_ready client (mark_ready client a).1 ≡ (some already_ready, (mark_ready client a).1))
unfolding mark_ready
mark_ready_twice client a keeps h = (rw h refl, rw (ready-mark_ready client a keeps) refl)
