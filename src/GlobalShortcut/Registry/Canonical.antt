-- ===== src/GlobalShortcut/Registry/Canonical.antt =====
-- The keys of the registry of internal/globalshortcut/registry.go stay canonical.
use golectron.Prelude.{
  ◌≡◌, Bool, true, Option, none, some, Bool-cases, List, [], ◌∷◌, Outcome, ok, if-elim,
  if◌then◌else◌, Option-cases, Outcome-cases, inl, inr, subst,
}
use golectron.Text.{Text, text_eq, text_eq_iff}
use golectron.Dict.{Dict, empty, put, delete, has}
use golectron.GlobalShortcut.Accelerator.{CaseTable, Accelerator, to_string, parse_accelerator}
use golectron.GlobalShortcut.Accelerator.Canonical.{CaseLaws}
use golectron.GlobalShortcut.Accelerator.RoundTrip.{parse_accelerator-to_string}
use golectron.GlobalShortcut.Registry.{
  RegisterError, Registry, new_registry, set_suspended, set_trigger_hook, unregister_all,
  canonical_accelerator, register, unregister, register_loop, register_all, hooked, trigger, Call,
  register_call, register_all_call, unregister_call, unregister_all_call, set_suspended_call,
  set_trigger_hook_call, trigger_call, perform, run,
}

module _ (table : CaseTable) {H : Type 0} where
  -- Every key that holds a callback is what `String` writes of what `ParseAccelerator` reads of it.
  pub record IsCanonical (d : Dict H) : Type 0 where
    pub canonical :
        (k : Text)
        → has (d k) ≡ true
        → (a : Accelerator) × (parse_accelerator table k ≡ ok a) × (to_string a ≡ k)

  empty-IsCanonical : IsCanonical empty
  empty-IsCanonical = record { canonical = λ k e. cc e }

  put-IsCanonical :
      CaseLaws table
      → (t : Text) (a : Accelerator) (h : H) (d : Dict H) → parse_accelerator table t ≡ ok a
      → IsCanonical d
      → IsCanonical (put (to_string a) h d)
  put-IsCanonical laws t a h d e p = record {
    canonical = λ k held. elim (Bool-cases (text_eq (to_string a) k)) [
      | inl same ↦
          let at = (text_eq_iff (to_string a) k).0 same in
          (
            a,
            subst (λ j. parse_accelerator table j ≡ ok a) at
                (parse_accelerator-to_string table laws t a e),
            at,
          )
      | inr other ↦ p.canonical k (subst (λ b. has (if b then some h else d k) ≡ true) other held)
    ];
  }

  delete-IsCanonical : (k : Text) (d : Dict H) → IsCanonical d → IsCanonical (delete k d)
  delete-IsCanonical k d p = record {
    canonical = λ j held. elim (Bool-cases (text_eq k j)) [
      | inl same ↦ cc (subst (λ b. has {V = H} (if b then none else d j) ≡ true) same held)
      | inr other ↦ p.canonical j (subst (λ b. has (if b then none else d j) ≡ true) other held)
    ];
  }

  abbrev Sound : Registry H → Type 0
  Sound r = IsCanonical r.callbacks

  parsed-Sound :
      CaseLaws table
      → (t : Text) (a : Accelerator) (h : Option H) (r : Registry H)
      → parse_accelerator table t ≡ ok a
      → Sound r
      → Sound (register table t h r).1
  unfolding register
  parsed-Sound laws t a none r e p = rw (e, register) p
  parsed-Sound laws t a (some h) r e p =
      rw (e, register)
        (if-elim (λ (s : Outcome RegisterError Bool × Registry H). Sound s.1)
          (has (r.callbacks (to_string a))) (λ _. p)
          (λ _. put-IsCanonical laws t a h r.callbacks e p))

  register-Sound :
      CaseLaws table
      → (t : Text) (h : Option H) (r : Registry H) → Sound r
      → Sound (register table t h r).1
  unfolding register
  register-Sound laws t h r p = elim (Outcome-cases (parse_accelerator table t)) [
    | inl (a, e) ↦ parsed-Sound laws t a h r e p
    | inr (x, e) ↦ rw (e, register) p
  ]

  unregister-Sound : (t : Text) (r : Registry H) → Sound r → Sound (unregister table t r)
  unfolding unregister
  unregister-Sound t r p = elim (Option-cases (canonical_accelerator table t)) [
    | inl e ↦ rw (e, unregister) p
    | inr (k, e) ↦ rw (e, unregister) (delete-IsCanonical k r.callbacks p)
  ]

  register_loop-Sound :
      CaseLaws table
      → (ts : List Text) (h : Option H) (results : Dict Bool) (r : Registry H) → Sound r
      → Sound (register_loop table ts h results r).1
  unfolding register_loop
  register_loop-Sound laws [] h results r p = p
  register_loop-Sound laws (t ∷ ts) h results r p =
      register_loop-Sound laws ts h _ (register table t h r).1 (register-Sound laws t h r p)

  register_all-Sound :
      CaseLaws table
      → (ts : List Text) (h : Option H) (r : Registry H) → Sound r
      → Sound (register_all table ts h r).1
  unfolding register_all
  register_all-Sound laws ts h r p = register_loop-Sound laws ts h empty r p

module _ (table : CaseTable) {H W : Type 0} (call_back : H → W × Registry H → W × Registry H)
    (call_hook : H → Text → W × Registry H → W × Registry H) where
  -- A callback or a hook that uses the registry's methods leaves its keys canonical.
  pub record CallsKeep : Type 0 where
    pub call_back_keeps :
        (h : H) (s : W × Registry H) → Sound table s.1 → Sound table (call_back h s).1
    pub call_hook_keeps :
        (h : H) (k : Text) (s : W × Registry H) → Sound table s.1 → Sound table (call_hook h k s).1

  hooked-Sound :
      CallsKeep
      → (o : Option H) (k : Text) (s : W × Registry H) → Sound table s.1
      → Sound table (hooked table call_back call_hook o k s).1
  hooked-Sound keep none k s p = p
  hooked-Sound keep (some h) k s p = keep.call_hook_keeps h k s p

  trigger-Sound :
      CallsKeep
      → (t : Text) (s : W × Registry H) → Sound table s.1
      → Sound table (trigger table call_back call_hook t s).1.1
  unfolding trigger
  trigger-Sound keep t s p = elim (Option-cases (canonical_accelerator table t)) [
    | inl e ↦ rw (e, trigger) p
    | inr (k, e) ↦ elim (Option-cases (s.1.callbacks k)) [
      | inl f ↦ rw (e, f, trigger) p
      | inr (h, f) ↦
          rw (e, f, trigger)
            (if-elim (λ (x : Bool × (W × Registry H)). Sound table x.1.1) s.1.suspended (λ _. p)
              (λ _. keep.call_back_keeps h _ (hooked-Sound keep s.1.trigger_hook k s p)))
    ]
  ]

  perform-Sound :
      CaseLaws table
      → CallsKeep
      → (c : Call H) (s : W × Registry H) → Sound table s.1
      → Sound table (perform table call_back call_hook c s).1
  unfolding perform set_suspended set_trigger_hook unregister_all
  perform-Sound laws keep (register_call t h) s p = register-Sound table laws t h s.1 p
  perform-Sound laws keep (register_all_call ts h) s p = register_all-Sound table laws ts h s.1 p
  perform-Sound laws keep (unregister_call t) s p = unregister-Sound table t s.1 p
  perform-Sound laws keep unregister_all_call s p = empty-IsCanonical table
  perform-Sound laws keep (set_suspended_call b) s p = p
  perform-Sound laws keep (set_trigger_hook_call h) s p = p
  perform-Sound laws keep (trigger_call t) s p = trigger-Sound keep t s p

  run-Sound :
      CaseLaws table
      → CallsKeep
      → (cs : List (Call H)) (s : W × Registry H) → Sound table s.1
      → Sound table (run table call_back call_hook cs s).1
  unfolding run
  run-Sound laws keep [] s p = p
  run-Sound laws keep (c ∷ cs) s p =
      run-Sound laws keep cs (perform table call_back call_hook c s) (perform-Sound laws keep c s p)

  -- Whatever calls a new registry has answered, each of its keys is the `String` of what
  -- `ParseAccelerator` reads of that key, for callbacks and hooks that keep this and a
  -- case table with the laws of `CaseLaws`.
  pub run-IsCanonical :
      CaseLaws table
      → CallsKeep
      → (cs : List (Call H)) (w : W)
      → IsCanonical table (run table call_back call_hook cs (w, new_registry)).1.callbacks
  run-IsCanonical laws keep cs w =
      run-Sound laws keep cs (w, new_registry) (empty-IsCanonical table)
