-- ===== src/GlobalShortcut/Registry/Laws.antt =====
-- The registry of internal/globalshortcut/registry.go: what its calls do to each accelerator, and
-- that its keys stay canonical.
use golectron.Prelude.{
  ◌≡◌, refl, true, false, not, ◌||◌, some, Bool-cases, ok, if◌then◌else◌, inl, inr, sym, ◌∙◌, subst,
}
use golectron.Text.{Text, text_eq, text_eq_iff}
use golectron.Dict.{Dict, put, delete, has, get-put_self}
use golectron.GlobalShortcut.Accelerator.{CaseTable, Accelerator, to_string, parse_accelerator}
use golectron.GlobalShortcut.Registry.{
  Registry, canonical_accelerator, register, is_registered, unregister, hooked, trigger,
}

module _ (table : CaseTable) where
  canonical_of :
      (t : Text) (a : Accelerator)
      → parse_accelerator table t ≡ ok a
      → canonical_accelerator table t ≡ some (to_string a)
  unfolding canonical_accelerator
  canonical_of t a h = rw (h, canonical_accelerator) refl

module _ (table : CaseTable) {H : Type 0} where
  has-put : (k j : Text) (h : H) (d : Dict H) → has (put k h d j) ≡ text_eq k j || has (d j)
  has-put k j h d = elim (Bool-cases (text_eq k j)) [ inl e ↦ rw e | inr e ↦ rw e ]

  or_held : (k j : Text) (d : Dict H) → has (d k) ≡ true → text_eq k j || has (d j) ≡ has (d j)
  or_held k j d h = elim (Bool-cases (text_eq k j)) [
    | inl e ↦ rw e (sym (subst (λ i. has (d i) ≡ true) ((text_eq_iff k j).0 e) h))
    | inr e ↦ rw e
  ]

  has-delete :
      (k j : Text) (d : Dict H) → has (delete k d j) ≡ (if text_eq k j then false else has (d j))
  has-delete k j d = elim (Bool-cases (text_eq k j)) [ inl e ↦ rw e | inr e ↦ rw e ]

  registered_at :
      (u : Text) (b : Accelerator) (r : Registry H)
      → parse_accelerator table u ≡ ok b
      → is_registered table u r ≡ has (r.callbacks (to_string b))
  unfolding is_registered
  registered_at u b r f = rw (canonical_of table u b f, is_registered) refl

  register_held :
      (t : Text) (a : Accelerator) (h : H) (r : Registry H)
      → parse_accelerator table t ≡ ok a
      → has (r.callbacks (to_string a)) ≡ true
      → register table t (some h) r ≡ (ok false, r)
  unfolding register
  register_held t a h r e d = rw (e, d, register) refl

  register_free :
      (t : Text) (a : Accelerator) (h : H) (r : Registry H)
      → parse_accelerator table t ≡ ok a
      → has (r.callbacks (to_string a)) ≡ false
      → register table t (some h) r
        ≡ (ok true, record r { callbacks = put (to_string a) h r.callbacks })
  unfolding register
  register_free t a h r e d = rw (e, d, register) refl

  unregister_at :
      (t : Text) (a : Accelerator) (r : Registry H)
      → parse_accelerator table t ≡ ok a
      → unregister table t r ≡ record r { callbacks = delete (to_string a) r.callbacks }
  unfolding unregister
  unregister_at t a r e = rw (canonical_of table t a e, unregister) refl

  -- Where two accelerators parse, the second is registered after a call that registers the first
  -- with a callback exactly if it was before, or both have one canonical form; the call answers
  -- whether the canonical form was free.
  pub register-is_registered :
      (r : Registry H) (h : H) (t u : Text) (a b : Accelerator)
      → parse_accelerator table t ≡ ok a
      → parse_accelerator table u ≡ ok b
      → (is_registered table u (register table t (some h) r).1
          ≡ text_eq (to_string a) (to_string b) || is_registered table u r)
        × ((register table t (some h) r).0 ≡ ok (not (is_registered table t r)))
  register-is_registered r h t u a b e f = elim (Bool-cases (has (r.callbacks (to_string a)))) [
    | inl d ↦ (
      rw (register_held t a h r e d, registered_at u b r f)
          (sym (or_held (to_string a) (to_string b) r.callbacks d)),
      rw (register_held t a h r e d, registered_at t a r e, d) refl,
    )
    | inr d ↦ (
      rw (register_free t a h r e d, registered_at u b r f)
          (registered_at u b (record r { callbacks = put (to_string a) h r.callbacks }) f
            ∙ has-put (to_string a) (to_string b) h r.callbacks),
      rw (register_free t a h r e d, registered_at t a r e, d) refl,
    )
  ]

  -- After an accelerator that parses is unregistered, an accelerator that parses is registered
  -- exactly if it was before and has another canonical form.
  pub unregister-is_registered :
      (r : Registry H) (t u : Text) (a b : Accelerator)
      → parse_accelerator table t ≡ ok a
      → parse_accelerator table u ≡ ok b
      → is_registered table u (unregister table t r)
        ≡ (if text_eq (to_string a) (to_string b) then false else is_registered table u r)
  unregister-is_registered r t u a b e f =
      rw (unregister_at t a r e, registered_at u b r f)
        (registered_at u b (record r { callbacks = delete (to_string a) r.callbacks }) f
          ∙ has-delete (to_string a) (to_string b) r.callbacks)

module _ (table : CaseTable) {H W : Type 0} (call_back : H → W × Registry H → W × Registry H)
    (call_hook : H → Text → W × Registry H → W × Registry H) where
  trigger_at :
      (u : Text) (b : Accelerator) (h : H) (s : W × Registry H)
      → parse_accelerator table u ≡ ok b
      → s.1.callbacks (to_string b) ≡ some h
      → trigger table call_back call_hook u s ≡ (
          if s.1.suspended then (true, s) else (
            true,
            call_back h (hooked table call_back call_hook s.1.trigger_hook (to_string b) s),
          ))
  unfolding trigger
  trigger_at u b h s e f = rw (canonical_of table u b e, f, trigger) refl

  -- Where an accelerator parses, its canonical form is free and a callback is registered for it, any
  -- spelling with the same canonical form triggers: the answer is true; while the registry is
  -- suspended nothing else happens, and otherwise the hook is called with the canonical form and
  -- then the callback.
  pub register-trigger :
      (r : Registry H) (w : W) (h : H) (t u : Text) (a b : Accelerator)
      → parse_accelerator table t ≡ ok a
      → parse_accelerator table u ≡ ok b
      → to_string b ≡ to_string a
      → has (r.callbacks (to_string a)) ≡ false
      → let s : W × Registry H = (w, (register table t (some h) r).1) in
        trigger table call_back call_hook u s ≡ (
          if r.suspended then (true, s) else (
            true,
            call_back h (hooked table call_back call_hook r.trigger_hook (to_string a) s),
          ))
  register-trigger r w h t u a b e f same free = rw (register_free table t a h r e free) (
      trigger_at u b h (w, record r { callbacks = put (to_string a) h r.callbacks }) f
        (rw same (get-put_self (to_string a) h r.callbacks))
      ∙ rw same refl)
