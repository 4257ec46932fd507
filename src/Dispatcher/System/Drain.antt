-- ===== src/Dispatcher/System/Drain.antt =====
-- The loop and the goroutines of `Shutdown` of internal/native/dispatcher.go answer every queued
-- request: they never run for ever, and do not stop before.
use golectron.Prelude.{
  ℕ, zero, suc, ◌+◌, ◌*◌, ◌<◌, ◌≤◌, ◌≡◌, ◌⊎◌, ◌≢◌, refl, sym, ap, ◌∙◌, true, false, Option, Outcome,
  ok, err, List, [], ◌∷◌, append-nil, length, arith, inl, inr,
}
use golectron.Text.{Text}
use golectron.Dispatcher.{
  Dispatcher, DispatchErrorCode, Request, register, unregister, assign_id, prepare, panicked,
}
use golectron.Dispatcher.System.{
  Work, Worker, idle, stopped, busy, System, initial, Outer, admits, enqueues, gives_up, fails,
  registers, unregisters, shuts_down, outer, own, Reach, here, next, Own, takes, finishes, stops,
  rejects, returns,
}
use golectron.Dispatcher.System.Places.{in_work, answered}
use golectron.Dispatcher.System.Order.{order, Own-order}

predecessor : (n : ℕ) → n ≢ 0 → (m : ℕ) × (n ≡ suc m)
predecessor zero h = absurd (h refl)
predecessor (suc m) h = (m, refl)

module _ {H : Type 0} where
  -- A run of the dispatcher's own goroutines, of a number of steps.
  pub data Run (s : System H) : ℕ → System H → Type 0 where
    quiet : Run s 0 s
    works : {n : ℕ} {t u : System H} → Run s n t → Own t u → Run s (suc n) u

  abbrev worker_steps : Worker H → ℕ
  worker_steps idle = 1
  worker_steps stopped = 0
  worker_steps (busy w) = 2

  -- A bound on the steps that are left.
  pub steps_left : System H → ℕ
  steps_left s = 2 * length s.queue + worker_steps s.worker + s.rejecting

  Own-steps_left : {s t : System H} → Own s t → steps_left t < steps_left s
  unfolding steps_left
  Own-steps_left (takes s w rest e f) = omega (arith, ap length f, ap worker_steps e)
  Own-steps_left (finishes s w result e) = omega (arith, ap worker_steps e)
  Own-steps_left (stops s e closed) = omega (arith, ap worker_steps e)
  Own-steps_left (rejects s n w rest e r f) = omega (arith, ap length f, ap worker_steps e)
  Own-steps_left (returns s n e r f) = omega arith

  -- The dispatcher's own goroutines take only finitely many steps: at most two for each queued
  -- request, two for the loop, and one for each `Shutdown`.
  pub Run-steps_left : {s t : System H} {n : ℕ} → Run s n t → n + steps_left t ≤ steps_left s
  Run-steps_left quiet = omega arith
  Run-steps_left (works r st) = omega (arith, Run-steps_left r, Own-steps_left st)

  -- The loop still runs, or a `Shutdown` still clears the queue.
  abbrev pub IsAttended : System H → Type 0
  IsAttended s = (s.worker ≢ stopped) ⊎ (s.rejecting ≢ 0)

  -- Once the loop has stopped, a `Shutdown` clears the queue, unless it is empty; and where the
  -- dispatcher is closed, the loop has not stopped before some `Shutdown` waits for it.
  record IsGuarded (s : System H) : Type 0 where
    cleared : s.worker ≡ stopped → (s.rejecting ≢ 0) ⊎ (s.queue ≡ [])
    awaited : s.dispatcher.closed ≡ true → s.worker ≢ stopped → s.rejecting ≢ 0

  Own-IsGuarded : {s t : System H} → Own s t → IsGuarded s → IsGuarded t
  Own-IsGuarded (takes s w rest e f) h = record {
    cleared = λ g. cc g;
    awaited = λ c g. h.awaited c (λ k. cc (e, k));
  }
  Own-IsGuarded (finishes s w result e) h = record {
    cleared = λ g. cc g;
    awaited = λ c g. h.awaited c (λ k. cc (e, k));
  }
  Own-IsGuarded (stops s e closed) h = record {
    cleared = λ g. inl (h.awaited closed (λ k. cc (e, k)));
    awaited = λ c g. absurd (g refl);
  }
  Own-IsGuarded (rejects s n w rest e r f) h = record {
    cleared = λ g. inl (omega arith);
    awaited = λ c g. omega arith;
  }
  Own-IsGuarded (returns s n e r f) h = record {
    cleared = λ g. inr f;
    awaited = λ c g. absurd (g e);
  }

  Run-IsGuarded : {s t : System H} {n : ℕ} → Run s n t → IsGuarded s → IsGuarded t
  Run-IsGuarded quiet h = h
  Run-IsGuarded (works r st) h = Own-IsGuarded st (Run-IsGuarded r h)

  Run-order : {s t : System H} {n : ℕ} → Run s n t → order t ≡ order s
  Run-order quiet = refl
  Run-order (works r st) = Own-order st ∙ Run-order r

  worker-cases : (v : Worker H) → (v ≡ idle) ⊎ ((v ≡ stopped) ⊎ ((w : Work H) × (v ≡ busy w)))
  worker-cases idle = inl refl
  worker-cases stopped = inr (inl refl)
  worker-cases (busy w) = inr (inr (w, refl))

  queue-cases :
      (q : List (Work H)) → (q ≡ []) ⊎ ((w : Work H) × (rest : List (Work H)) × (q ≡ w ∷ rest))
  queue-cases [] = inl refl
  queue-cases (w ∷ rest) = inr (w, rest, refl)

  all_answered :
      (s : System H) → in_work s.worker ≡ [] → s.queue ≡ [] → answered s.answers ≡ order s
  all_answered s e f = rw (e, f) (sym (append-nil (answered s.answers)))

  -- All is answered, or some goroutine of the dispatcher can take a step.
  progress :
      (s : System H) → IsGuarded s → (answered s.answers ≡ order s) ⊎ ((t : System H) × Own s t)
  progress s h = elim (queue-cases s.queue) [
    | inl f ↦ elim (worker-cases s.worker) [
      | inl e ↦ inl (all_answered s (ap in_work e) f)
      | inr (inl e) ↦ inl (all_answered s (ap in_work e) f)
      | inr (inr (w, e)) ↦ inr (_, finishes s w panicked e)
    ]
    | inr (w, rest, f) ↦ elim (worker-cases s.worker) [
      | inl e ↦ inr (_, takes s w rest e f)
      | inr (inl e) ↦ elim (h.cleared e) [
        | inl some_left ↦
            let (n, r) = predecessor s.rejecting some_left in inr (_, rejects s n w rest e r f)
        | inr none_queued ↦ cc (f, none_queued)
      ]
      | inr (inr (v, e)) ↦ inr (_, finishes s v panicked e)
    ]
  ]

  register-closed :
      (c m : Text) (h : Option H) (d : Dispatcher H) → (register c m h d).1.closed ≡ d.closed
  unfolding register
  register-closed c m h d = ground arith

  unregister-closed : (c m : Text) (d : Dispatcher H) → (unregister c m d).1.closed ≡ d.closed
  unfolding unregister
  unregister-closed c m d = ground arith

  prepare-closed : (req : Request) (d : Dispatcher H) → (prepare req d).1.closed ≡ d.closed
  unfolding prepare assign_id
  prepare-closed req d = ground arith

  prepared_closed :
      (req : Request) (d d' : Dispatcher H) (r : Outcome DispatchErrorCode (Request × H))
      → prepare req d ≡ (r, d')
      → d'.closed ≡ d.closed
  prepared_closed req d d' r e =
      sym (ap (λ (p : Outcome DispatchErrorCode (Request × H) × Dispatcher H). p.1.closed) e)
      ∙ prepare-closed req d

  -- Where the dispatcher is closed, the loop has not stopped before some `Shutdown` waits for it.
  record IsAwaited (s : System H) : Type 0 where
    awaited : s.dispatcher.closed ≡ true → s.worker ≢ stopped → s.rejecting ≢ 0

  Outer-IsAwaited : {s t : System H} → Outer s t → IsAwaited s → IsAwaited t
  Outer-IsAwaited (admits s req work d opened e) h = record {
    awaited = λ c. h.awaited (sym (prepared_closed req s.dispatcher d (ok work) e) ∙ c);
  }
  Outer-IsAwaited (enqueues s before behind w e space) h = record { awaited = h.awaited }
  Outer-IsAwaited (gives_up s before behind w code e why) h = record { awaited = h.awaited }
  Outer-IsAwaited (fails s req code d e) h = record {
    awaited = λ c. h.awaited (sym (prepared_closed req s.dispatcher d (err code) e) ∙ c);
  }
  Outer-IsAwaited (registers s c m f) h = record {
    awaited = λ k. h.awaited (sym (register-closed c m f s.dispatcher) ∙ k);
  }
  Outer-IsAwaited (unregisters s c m) h = record {
    awaited = λ k. h.awaited (sym (unregister-closed c m s.dispatcher) ∙ k);
  }
  Outer-IsAwaited (shuts_down s) h = record { awaited = λ c g. omega arith }

  Own-IsAwaited : {s t : System H} → Own s t → IsAwaited s → IsAwaited t
  Own-IsAwaited (takes s w rest e f) h = record { awaited = λ c g. h.awaited c (λ k. cc (e, k)) }
  Own-IsAwaited (finishes s w result e) h = record { awaited = λ c g. h.awaited c (λ k. cc (e, k)) }
  Own-IsAwaited (stops s e closed) h = record { awaited = λ c g. absurd (g refl) }
  Own-IsAwaited (rejects s n w rest e r f) h = record { awaited = λ c g. absurd (g e) }
  Own-IsAwaited (returns s n e r f) h = record { awaited = λ c g. absurd (g e) }

  Reach-IsAwaited :
      (d : Dispatcher H) → d.closed ≡ false → {s : System H} → Reach (initial d) s → IsAwaited s
  Reach-IsAwaited d opened here = record { awaited = λ c g. cc (opened, c) }
  Reach-IsAwaited d opened (next r (outer st)) = Outer-IsAwaited st (Reach-IsAwaited d opened r)
  Reach-IsAwaited d opened (next r (own st)) = Own-IsAwaited st (Reach-IsAwaited d opened r)

  guard : (s : System H) → IsAwaited s → IsAttended s → IsGuarded s
  guard s h (inl runs) = record { cleared = λ g. absurd (runs g); awaited = h.awaited }
  guard s h (inr left) = record { cleared = λ g. inl left; awaited = h.awaited }

  -- In whatever state an open dispatcher has come to, while its loop runs or a `Shutdown` clears
  -- the queue: its own goroutines, with no help of callers, take at most `steps_left` more steps,
  -- and as long as a queued request has no answer one of them can take a step, where handlers
  -- return. So every queued request is answered.
  pub Run-answers :
      (d : Dispatcher H) {s t : System H} {n : ℕ}
      → d.closed ≡ false
      → Reach (initial d) s
      → IsAttended s
      → Run s n t
      → (n + steps_left t ≤ steps_left s)
        × ((answered t.answers ≡ order s) ⊎ ((u : System H) × Own t u))
  Run-answers d {s} {t} opened reach attended r = (
    Run-steps_left r,
    elim (progress t (Run-IsGuarded r (guard s (Reach-IsAwaited d opened reach) attended))) [
      | inl all ↦ inl (all ∙ Run-order r)
      | inr more ↦ inr more
    ],
  )
