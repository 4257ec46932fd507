-- ===== src/Callbacks.antt =====
-- The loop by which every component calls its registered callbacks,
-- `for _, handler := range handlers { handler(&ctx) }`. A callback is application code, so what it
-- does is a parameter: it may change the context and, by calling the component back, the state.
use golectron.Prelude.{◌≡◌, refl, List, [], ◌∷◌, ◌++◌, ◌∙◌}

module _ {H C S : Type 0} (call : H → C → S → C × S) where
  -- The slice is read once, before the first call.
  unfoldable pub run_handlers : List H → C → S → C × S
  run_handlers [] ctx s = (ctx, s)
  run_handlers (h ∷ hs) ctx s = let (ctx', s') = call h ctx s in run_handlers hs ctx' s'

  -- What every callback keeps, the loop keeps.
  pub run_handlers_inv :
      (P : S → Type 0)
      → ((h : H) (c : C) (s : S) → P s → P (call h c s).1)
      → (hs : List H) (c : C) (s : S) → P s
      → P (run_handlers hs c s).1
  unfolding run_handlers
  run_handlers_inv P keep [] c s p = p
  run_handlers_inv P keep (h ∷ hs) c s p =
      run_handlers_inv P keep hs (call h c s).0 (call h c s).1 (keep h c s p)

  -- Callbacks that do not call the component back leave its state alone.
  pub run_handlers_pure :
      ((h : H) (c : C) (s : S) → (call h c s).1 ≡ s)
      → (hs : List H) (c : C) (s : S) → (run_handlers hs c s).1 ≡ s
  unfolding run_handlers
  run_handlers_pure pure [] c s = refl
  run_handlers_pure pure (h ∷ hs) c s =
      run_handlers_pure pure hs (call h c s).0 (call h c s).1 ∙ pure h c s

-- The same loop over callbacks that take no context.
module _ {W S : Type 0} (wake : W → S → S) where
  unfoldable pub run_waiters : List W → S → S
  run_waiters [] s = s
  run_waiters (w ∷ ws) s = run_waiters ws (wake w s)

  pub run_waiters_inv :
      (P : S → Type 0)
      → ((w : W) (s : S) → P s → P (wake w s))
      → (ws : List W) (s : S) → P s
      → P (run_waiters ws s)
  unfolding run_waiters
  run_waiters_inv P keep [] s p = p
  run_waiters_inv P keep (w ∷ ws) s p = run_waiters_inv P keep ws (wake w s) (keep w s p)

  pub run_waiters_pure :
      ((w : W) (s : S) → wake w s ≡ s) → (ws : List W) (s : S) → run_waiters ws s ≡ s
  unfolding run_waiters
  run_waiters_pure pure [] s = refl
  run_waiters_pure pure (w ∷ ws) s = run_waiters_pure pure ws (wake w s) ∙ pure w s

  pub run_waiters-append :
      (xs ys : List W) (s : S) → run_waiters (xs ++ ys) s ≡ run_waiters ys (run_waiters xs s)
  unfolding run_waiters
  run_waiters-append [] ys s = refl
  run_waiters-append (x ∷ xs) ys s = run_waiters-append xs ys (wake x s)
