-- ===== src/ContextBridge/Exposed.antt =====
-- What is exposed through internal/contextbridge/bridge.go stays as it was exposed.
use golectron.Prelude.{
  ℤ, is_negative, int_eq, int_eq_iff, ◌≡◌, refl, sym, ap, ◌∙◌, Bool, true, false, ◌&&◌, Option,
  none, some, Option-cases, Bool-cases, List, [], ◌∷◌, ok, Outcome-cases, if-elim, subst, inl, inr,
  arith,
}
use golectron.Text.{Text, text_eq, text_eq_iff, text_eq_refl, trim_space}
use golectron.ContextBridge.{
  BridgeError, already_exposed, mutation_not_allowed, Value, clone_value, Bridge, bad_api_key,
  expose_cloned, expose_in_isolated_world, complete_preload, exposure, mutate_exposure, Call,
  expose_call, complete_preload_call, perform, run,
}
use golectron.ContextBridge.Frozen.Cloned.{clone_value_idem}

-- What a bridge exposes, the other exposes too.
record Keeps (a b : Bridge) : Type 0 where
  kept :
      (world : ℤ) (key : Text) (v : Value)
      → a.exposures world key ≡ some v
      → b.exposures world key ≡ some v

and_true : {a b : Bool} → a && b ≡ true → (a ≡ true) × (b ≡ true)
and_true {a} {b} h = ground arith

Keeps-refl : (b : Bridge) → Keeps b b
Keeps-refl b = record { kept = λ w k v h. h }

expose_cloned-Keeps :
    (world : ℤ) (key : Text) (c : Value) (b : Bridge) → Keeps b (expose_cloned world key c b).1
unfolding expose_cloned
expose_cloned-Keeps world key c b = elim (Option-cases (b.exposures world key)) [
  | inr (old, e) ↦ rw (e, expose_cloned) (record { kept = λ w k v h. h })
  | inl e ↦
      rw (e, expose_cloned)
        (record {
          kept = λ w k v h. elim (Bool-cases (int_eq world w && text_eq key k)) [
            | inl same ↦
                let at : b.exposures world key ≡ some v =
                  subst (λ j. b.exposures world j ≡ some v)
                    (sym ((text_eq_iff key k).0 (and_true same).1))
                    (subst (λ u. b.exposures u k ≡ some v)
                      (sym ((int_eq_iff world w).0 (and_true same).0)) h) in
                cc (e, at)
            | inr other ↦ rw other h
          ];
        })
]

-- A call that gets past the tests of `ExposeInIsolatedWorld`.
expose_passed :
    (world : ℤ) (key : Text) (value c : Value) (b : Bridge)
    → b.preload_complete ≡ false
    → is_negative world ≡ false
    → bad_api_key (trim_space key) ≡ false
    → clone_value value ≡ ok c
    → expose_in_isolated_world world key value b ≡ expose_cloned world (trim_space key) c b
unfolding expose_in_isolated_world
expose_passed world key value c b p n k e = simp (p, n, k, e)

expose-Keeps :
    (world : ℤ) (key : Text) (value : Value) (b : Bridge)
    → Keeps b (expose_in_isolated_world world key value b).1
unfolding expose_in_isolated_world
expose-Keeps world key value b =
    if-elim (λ (s : Option BridgeError × Bridge). Keeps b s.1) b.preload_complete
      (λ _. Keeps-refl b)
      (λ p.
        if-elim (λ (s : Option BridgeError × Bridge). Keeps b s.1) (is_negative world)
          (λ _. Keeps-refl b)
          (λ n.
            if-elim (λ (s : Option BridgeError × Bridge). Keeps b s.1)
              (bad_api_key (trim_space key)) (λ _. Keeps-refl b)
              (λ k. elim (Outcome-cases (clone_value value)) [
                | inl (c, e) ↦ rw e (expose_cloned-Keeps world (trim_space key) c b)
                | inr (x, e) ↦ rw e (Keeps-refl b)
              ])))

perform-Keeps : (c : Call) (b : Bridge) → Keeps b (perform c b)
unfolding perform complete_preload
perform-Keeps (expose_call world key value) b = expose-Keeps world key value b
perform-Keeps complete_preload_call b = record { kept = λ w k v h. h }

run-Keeps : (cs : List Call) (b : Bridge) → Keeps b (run cs b)
unfolding run
run-Keeps [] b = Keeps-refl b
run-Keeps (c ∷ cs) b = record {
  kept = λ w k v h. (run-Keeps cs (perform c b)).kept w k v ((perform-Keeps c b).kept w k v h);
}

expose_refused :
    (world : ℤ) (key : Text) (c old : Value) (b : Bridge)
    → b.exposures world key ≡ some old
    → (expose_cloned world key c b).0 ≡ some already_exposed
unfolding expose_cloned
expose_refused world key c old b e = rw (e, expose_cloned) refl

expose_cloned_held :
    (world : ℤ) (key : Text) (c : Value) (b : Bridge)
    → (expose_cloned world key c b).0 ≡ none
    → (expose_cloned world key c b).1.exposures world key ≡ some c
unfolding expose_cloned
expose_cloned_held world key c b h = elim (Option-cases (b.exposures world key)) [
  | inr (old, e) ↦ cc (h, expose_refused world key c old b e)
  | inl e ↦ rw (e, expose_cloned) (rw ((int_eq_iff world world).1 refl, text_eq_refl key) refl)
]

exposure_at :
    (world : ℤ) (key : Text) (c : Value) (b : Bridge)
    → b.exposures world key ≡ some c
    → clone_value c ≡ ok c
    → exposure world key b ≡ some c
unfolding exposure
exposure_at world key c b e f = rw (e, f, exposure) refl

mutate_at :
    (world : ℤ) (key : Text) (c new : Value) (b : Bridge)
    → exposure world key b ≡ some c
    → mutate_exposure world key new b ≡ mutation_not_allowed
unfolding mutate_exposure
mutate_at world key c new b e = rw (e, mutate_exposure) refl

-- Where a value was cloned and its clone was exposed under a key, every later `Exposure` of that key
-- gives this clone, whatever calls come in between, and every `MutateExposure` is refused as not
-- allowed.
pub expose_stays :
    (world : ℤ) (key : Text) (value c new : Value) (b : Bridge) (cs : List Call)
    → b.preload_complete ≡ false
    → is_negative world ≡ false
    → bad_api_key (trim_space key) ≡ false
    → clone_value value ≡ ok c
    → (expose_in_isolated_world world key value b).0 ≡ none
    → let later = run cs (expose_in_isolated_world world key value b).1 in
      (exposure world (trim_space key) later ≡ some c)
      × (mutate_exposure world (trim_space key) new later ≡ mutation_not_allowed)
expose_stays world key value c new b cs p n k e h =
    let passed = expose_passed world key value c b p n k e in
    let held : (expose_in_isolated_world world key value b).1.exposures world (trim_space key)
        ≡ some c =
      ap (λ (s : Option BridgeError × Bridge). s.1.exposures world (trim_space key)) passed
      ∙ expose_cloned_held world (trim_space key) c b
          (sym (ap (λ (s : Option BridgeError × Bridge). s.0) passed) ∙ h) in
    let later = run cs (expose_in_isolated_world world key value b).1 in
    let shown =
      exposure_at world (trim_space key) c later
        ((run-Keeps cs (expose_in_isolated_world world key value b).1).kept world (trim_space key) c
          held)
        (clone_value_idem value c e) in
    (shown, mutate_at world (trim_space key) c new later shown)

expose_completed :
    (world : ℤ) (key : Text) (value : Value) (b : Bridge)
    → b.preload_complete ≡ true
    → (expose_in_isolated_world world key value b).1 ≡ b
unfolding expose_in_isolated_world
expose_completed world key value b h = rw (h, expose_in_isolated_world) refl

perform-completed : (c : Call) (b : Bridge) → b.preload_complete ≡ true → perform c b ≡ b
unfolding perform complete_preload
perform-completed (expose_call world key value) b h = expose_completed world key value b h
perform-completed complete_preload_call b h = λ i. record b { preload_complete = sym h i }

-- Once the preload script is complete, no call changes the bridge.
pub run-completed : (cs : List Call) (b : Bridge) → b.preload_complete ≡ true → run cs b ≡ b
unfolding run
run-completed [] b h = refl
run-completed (c ∷ cs) b h = ap (run cs) (perform-completed c b h) ∙ run-completed cs b h
