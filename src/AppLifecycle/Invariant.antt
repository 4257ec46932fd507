-- ===== src/AppLifecycle/Invariant.antt =====
-- What holds of an app after any calls, re-entrant ones from its own callbacks included.
use golectron.Prelude.{
  ◌≡◌, refl, sym, Bool, true, false, ℤ, Option, none, some, List, [], ◌∷◌, ◌++◌, append_assoc,
  append-nil, if-elim, pos, ◌∙◌, ap,
}
use golectron.Callbacks.{run_handlers_inv, run_waiters_inv}
use golectron.AppLifecycle.{
  Event, EventContext, LifecycleError, event_will_finish_launching, event_ready, event_before_quit,
  event_will_quit, event_quit, App, Client, Call, on_call, emit_call, when_ready_call,
  mark_ready_call, window_all_closed_call, quit_call, exit_call, new, on, emit, emit_cancellable,
  when_ready, mark_ready, exit, confirm_quit, quit, quit_unless, window_all_closed, perform, run,
}

-- `P` survives each single write that the app makes to its state.
pub record IsStable {H W : Type 0} (P : App H W → Type 0) : Type 0 where
  pub logged :
      (e : Event) (a : App H W) → P a → P (record a { emitted_events = a.emitted_events ++ e ∷ [] })
  pub added : (e : Event) (h : Option H) (a : App H W) → P a → P (on e h a)
  pub waiting :
      (w : W) (a : App H W)
      → a.ready ≡ false
      → P a
      → P (record a { ready_waiters = a.ready_waiters ++ w ∷ [] })
  pub readied : (a : App H W) → P a → P (record a { ready = true; ready_waiters = [] })
  pub stopped : (n : ℤ) (a : App H W) → P a → P (record a { quitting = true; quit_exit_code = n })

-- `P` survives whatever the callbacks do.
pub record Keeps {H W : Type 0} (client : Client H W) (P : App H W → Type 0) : Type 0 where
  pub called : (h : H) (c : _) (a : App H W) → P a → P (client.call h c a).1
  pub woken : (w : W) (a : App H W) → P a → P (client.wake w a)

module _ {H W : Type 0} (client : Client H W) (P : App H W → Type 0) (stable : IsStable P)
    (keeps : Keeps client P) where
  pub emit-Keeps : (e : Event) (n : ℤ) (a : App H W) → P a → P (emit client e n a).1
  unfolding emit
  emit-Keeps e n a p =
      run_handlers_inv client.call P keeps.called (a.handlers e) _ _ (stable.logged e a p)

  exit-Keeps : (n : ℤ) (a : App H W) → P a → P (exit client n a)
  unfolding exit
  exit-Keeps n a p = emit-Keeps event_quit n _ (stable.stopped n a p)

  emit_cancellable-Keeps :
      (e : Event) (n : ℤ) (a : App H W) → P a → P (emit_cancellable client e n a).1
  unfolding emit_cancellable
  emit_cancellable-Keeps e n a p = emit-Keeps e n a p

  abbrev Sound : Bool × App H W → Type 0
  Sound r = P r.1

  confirm_quit-Keeps : (n : ℤ) (a : App H W) → P a → P (confirm_quit client n a).1
  unfolding confirm_quit
  confirm_quit-Keeps n a p =
      if-elim Sound (emit_cancellable client event_will_quit n a).0
        (λ _. emit_cancellable-Keeps event_will_quit n a p)
        (λ _. exit-Keeps n _ (emit_cancellable-Keeps event_will_quit n a p))

  quit-Keeps : (n : ℤ) (a : App H W) → P a → P (quit client n a).1
  unfolding quit
  quit-Keeps n a p =
      if-elim Sound (emit_cancellable client event_before_quit n a).0
        (λ _. emit_cancellable-Keeps event_before_quit n a p)
        (λ _. confirm_quit-Keeps n _ (emit_cancellable-Keeps event_before_quit n a p))

  quit_unless-Keeps : (hs : List H) (a : App H W) → P a → P (quit_unless client hs a).1
  quit_unless-Keeps [] a p = quit-Keeps (pos 0) a p
  quit_unless-Keeps (h ∷ hs) a p = p

  when_ready-Keeps : (w : Option W) (a : App H W) → P a → P (when_ready client w a)
  unfolding when_ready
  when_ready-Keeps none a p = p
  when_ready-Keeps (some w) a p =
      if-elim P a.ready (λ _. keeps.woken w a p) (λ waits. stable.waiting w a waits p)

  mark_ready-Keeps : (a : App H W) → P a → P (mark_ready client a).1
  unfolding mark_ready
  mark_ready-Keeps a p =
      if-elim (λ (r : Option LifecycleError × App H W). P r.1) a.ready (λ _. p)
        λ _. run_waiters_inv client.wake P keeps.woken a.ready_waiters _ (
          emit-Keeps event_ready (pos 0) _
            (emit-Keeps event_will_finish_launching (pos 0) _ (stable.readied a p)))

  perform-Keeps : (c : Call H W) (a : App H W) → P a → P (perform client c a)
  unfolding perform
  perform-Keeps (on_call e h) a p = stable.added e h a p
  perform-Keeps (emit_call e n) a p = emit-Keeps e n a p
  perform-Keeps (when_ready_call w) a p = when_ready-Keeps w a p
  perform-Keeps mark_ready_call a p = mark_ready-Keeps a p
  perform-Keeps window_all_closed_call a p =
      unfold window_all_closed in quit_unless-Keeps _ _ (emit-Keeps _ _ a p)
  perform-Keeps (quit_call n) a p = quit-Keeps n a p
  perform-Keeps (exit_call n) a p = exit-Keeps n a p

  run-Keeps : (cs : List (Call H W)) (a : App H W) → P a → P (run client cs a)
  unfolding run
  run-Keeps [] a p = p
  run-Keeps (c ∷ cs) a p = run-Keeps cs (perform client c a) (perform-Keeps c a p)

-- No callback waits once the app is ready: `MarkReady` has taken the queue.
pub record IsSettled {H W : Type 0} (a : App H W) : Type 0 where
  pub settled : a.ready ≡ true → a.ready_waiters ≡ []

-- `b` is a later state of `a`: the log has grown at its end only, and an app that is ready, or
-- quitting, has stayed so.
pub record IsLater {H W : Type 0} (a b : App H W) : Type 0 where
  pub events : (more : List Event) × (b.emitted_events ≡ a.emitted_events ++ more)
  pub stays_ready : a.ready ≡ true → b.ready ≡ true
  pub stays_quitting : a.quitting ≡ true → b.quitting ≡ true

module _ {H W : Type 0} where
  on-IsSettled : (e : Event) (h : Option H) (a : App H W) → IsSettled a → IsSettled (on e h a)
  unfolding on
  on-IsSettled e none a p = p
  on-IsSettled e (some h) a p = record { settled = p.settled }

  on-IsLater :
      (e : Event) (h : Option H) {a : App H W} (b : App H W) → IsLater a b → IsLater a (on e h b)
  unfolding on
  on-IsLater e none b p = p
  on-IsLater e (some h) b p = record {
    events = p.events;
    stays_ready = p.stays_ready;
    stays_quitting = p.stays_quitting;
  }

IsSettled-stable : {H W : Type 0} → IsStable (IsSettled {H = H} {W = W})
IsSettled-stable = record {
  logged = λ e a p. record { settled = p.settled };
  added = on-IsSettled;
  waiting = λ w a waits p. record { settled = λ r. cc };
  readied = λ a p. record { settled = λ r. refl };
  stopped = λ n a p. record { settled = p.settled };
}

IsLater-stable : {H W : Type 0} (a : App H W) → IsStable (IsLater a)
IsLater-stable a = record {
  logged = λ e b p. record {
    events =
        (p.events.0 ++ e ∷ [], rw (p.events.1) (append_assoc a.emitted_events p.events.0 (e ∷ [])));
    stays_ready = p.stays_ready;
    stays_quitting = p.stays_quitting;
  };
  added = λ e h b p. on-IsLater e h b p;
  waiting = λ w b waits p. record {
    events = p.events;
    stays_ready = p.stays_ready;
    stays_quitting = p.stays_quitting;
  };
  readied = λ b p. record {
    events = p.events;
    stays_ready = λ r. refl;
    stays_quitting = p.stays_quitting;
  };
  stopped = λ n b p. record {
    events = p.events;
    stays_ready = p.stays_ready;
    stays_quitting = λ r. refl;
  };
}

-- Whatever calls an app has had, an app that is ready holds no waiting callback, provided that
-- the callbacks themselves leave none waiting.
pub run-IsSettled :
    {H W : Type 0} (client : Client H W)
    → Keeps client IsSettled
    → (cs : List (Call H W)) → IsSettled (run client cs new)
run-IsSettled client keeps cs =
    run-Keeps client IsSettled IsSettled-stable keeps cs new
      (record { settled = λ r. unfold new in refl })

pub IsLater-refl : {H W : Type 0} (a : App H W) → IsLater a a
IsLater-refl a = record {
  events = ([], sym (append-nil a.emitted_events));
  stays_ready = λ r. r;
  stays_quitting = λ r. r;
}

IsLater-trans : {H W : Type 0} {a b c : App H W} → IsLater a b → IsLater b c → IsLater a c
IsLater-trans {a} p q = record {
  events = (
    p.events.0 ++ q.events.0,
    q.events.1
        ∙ ap (λ l. l ++ q.events.0) p.events.1
        ∙ append_assoc a.emitted_events p.events.0 q.events.0,
  );
  stays_ready = λ r. q.stays_ready (p.stays_ready r);
  stays_quitting = λ r. q.stays_quitting (p.stays_quitting r);
}

-- Where each callback only moves the app on, so does every history of calls: the event log grows
-- at its end, and `ready` and `quitting` are never taken back.
pub run-IsLater :
    {H W : Type 0} (client : Client H W)
    → ((h : H) (c : EventContext) (a : App H W) → IsLater a (client.call h c a).1)
    → ((w : W) (a : App H W) → IsLater a (client.wake w a))
    → (cs : List (Call H W)) (a : App H W) → IsLater a (run client cs a)
run-IsLater client called woken cs a =
    run-Keeps client (IsLater a) (IsLater-stable a)
      (record {
        called = λ h c b p. IsLater-trans p (called h c b);
        woken = λ w b p. IsLater-trans p (woken w b);
      })
      cs a (IsLater-refl a)
