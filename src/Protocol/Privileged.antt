-- ===== src/Protocol/Privileged.antt =====
-- The privileges of internal/protocol/registry.go: what any sequence of calls does to them.
use golectron.Prelude.{
  ◌≡◌, refl, sym, ap, ◌∙◌, Bool, true, false, not, ◌&&◌, Option, none, some, Bool-cases, List, [],
  ◌∷◌, ◌⊎◌, inl, inr, Outcome-cases, if-elim, subst,
}
use golectron.Text.{Text, text_eq, text_eq_iff, is_empty}
use golectron.Dict.{Dict, put, has}
use golectron.GlobalShortcut.Accelerator.{CaseTable}
use golectron.Protocol.{
  ProtocolError, Privileges, SchemePrivilege, Handler, Registry, normalize_scheme, register_schemes,
  register_schemes_as_privileged, lock_privileges, register_handler, unregister_protocol,
}

-- Extensions are allowed in standard schemes only.
abbrev pub bad_privileges : Privileges → Bool
bad_privileges p = p.allow_extensions && not p.standard

-- `b` keeps the privileges of `a`, and those it adds are sound.
pub record Extends {H : Type 0} (a b : Registry H) : Type 0 where
  pub kept :
      (name : Text) (p : Privileges) → a.privileges name ≡ some p → b.privileges name ≡ some p
  pub added :
      (name : Text) (p : Privileges)
      → b.privileges name ≡ some p
      → (a.privileges name ≡ some p) ⊎ (bad_privileges p ≡ false)

-- A call of a client.
pub data Call (H : Type 0) : Type 0 where
  privileged_call : List SchemePrivilege → Call H
  lock_call : Call H
  handler_call : Text → Handler H → Call H
  unregister_call : Text → Call H

module _ (table : CaseTable) {H : Type 0} where
  unfoldable pub perform : Call H → Registry H → Registry H
  perform (privileged_call schemes) r = (register_schemes_as_privileged table schemes r).1
  perform lock_call r = lock_privileges table r
  perform (handler_call scheme handler) r = (register_handler table scheme handler r).1
  perform (unregister_call scheme) r = (unregister_protocol table scheme r).1

  unfoldable pub run : List (Call H) → Registry H → Registry H
  run [] r = r
  run (c ∷ cs) r = run cs (perform c r)

-- `b` has the privileges and the lock of `a`.
record AsBefore {H : Type 0} (a b : Registry H) : Type 0 where
  privileges_kept : b.privileges ≡ a.privileges
  locked_kept : b.locked ≡ a.locked

module _ {H : Type 0} where
  AsBefore-refl : (r : Registry H) → AsBefore r r
  AsBefore-refl r = record { privileges_kept = refl; locked_kept = refl }

  Extends-same : (a b : Registry H) → b.privileges ≡ a.privileges → Extends a b
  Extends-same a b h = record {
    kept = λ name p e. subst (λ (d : Dict Privileges). d name ≡ some p) (sym h) e;
    added = λ name p e. inl (subst (λ (d : Dict Privileges). d name ≡ some p) h e);
  }

  Extends-trans : {a b c : Registry H} → Extends a b → Extends b c → Extends a c
  Extends-trans u v = record {
    kept = λ name p e. v.kept name p (u.kept name p e);
    added = λ name p e. elim (v.added name p e) [
      | inl old ↦ u.added name p old
      | inr sound ↦ inr sound
    ];
  }

  added_other :
      (k : Text) (q : Privileges) (r : Registry H) (name : Text) (p : Privileges)
      → text_eq k name ≡ false
      → put k q r.privileges name ≡ some p
      → r.privileges name ≡ some p
  added_other k q r name p other = rw other (λ e. e)

  added_same :
      (k : Text) (q : Privileges) (r : Registry H) (name : Text) (p : Privileges)
      → text_eq k name ≡ true
      → bad_privileges q ≡ false
      → put k q r.privileges name ≡ some p
      → bad_privileges p ≡ false
  added_same k q r name p same sound = rw same (λ e.
      subst (λ (o : Option Privileges). elim o [ none ↦ Bool | some v ↦ bad_privileges v ≡ false ])
        e sound)

  Extends-put :
      (k : Text) (q : Privileges) (r : Registry H)
      → has (r.privileges k) ≡ false
      → bad_privileges q ≡ false
      → Extends r (record r { privileges = put k q r.privileges })
  Extends-put k q r fresh sound = record {
    kept = λ name p e. elim (Bool-cases (text_eq k name)) [
      | inr other ↦ rw other e
      | inl same ↦
          let at : r.privileges k ≡ some p =
            subst (λ j. r.privileges j ≡ some p) (sym ((text_eq_iff k name).0 same)) e in
          cc (fresh, ap has at)
    ];
    added = λ name p e. elim (Bool-cases (text_eq k name)) [
      | inr other ↦ inl (added_other k q r name p other e)
      | inl same ↦ inr (added_same k q r name p same sound e)
    ];
  }

module _ (table : CaseTable) {H : Type 0} where
  register_schemes-Extends :
      (schemes : List SchemePrivilege) (r : Registry H)
      → Extends r (register_schemes table schemes r).1
  unfolding register_schemes
  register_schemes-Extends [] r = Extends-same r r refl
  register_schemes-Extends (s ∷ ss) r = elim (Outcome-cases (normalize_scheme table s.scheme)) [
    | inr (x, e) ↦ rw (e, register_schemes) (Extends-same r r refl)
    | inl (name, e) ↦
        rw (e, register_schemes)
          (if-elim (λ (t : Option ProtocolError × Registry H). Extends r t.1)
            (has (r.privileges name)) (λ _. Extends-same r r refl)
            (λ fresh.
              if-elim (λ (t : Option ProtocolError × Registry H). Extends r t.1)
                (bad_privileges s.privileges) (λ _. Extends-same r r refl)
                (λ sound. Extends-trans (Extends-put name s.privileges r fresh sound) (
                  register_schemes-Extends ss
                    (record r { privileges = put name s.privileges r.privileges })))))
  ]

  handler-AsBefore :
      (scheme : Text) (handler : Handler H) (r : Registry H)
      → AsBefore r (register_handler table scheme handler r).1
  unfolding register_handler
  handler-AsBefore scheme handler r = elim (Outcome-cases (normalize_scheme table scheme)) [
    | inr (x, e) ↦ rw (e, register_handler) (AsBefore-refl r)
    | inl (name, e) ↦
        rw (e, register_handler)
          (if-elim (λ (t : Option ProtocolError × Registry H). AsBefore r t.1)
            (is_empty handler.kind) (λ _. AsBefore-refl r)
            (λ _.
              if-elim (λ (t : Option ProtocolError × Registry H). AsBefore r t.1)
                (has (r.handlers name)) (λ _. AsBefore-refl r)
                (λ _. record { privileges_kept = refl; locked_kept = refl })))
  ]

  unregister-AsBefore :
      (scheme : Text) (r : Registry H) → AsBefore r (unregister_protocol table scheme r).1
  unfolding unregister_protocol
  unregister-AsBefore scheme r = elim (Outcome-cases (normalize_scheme table scheme)) [
    | inr (x, e) ↦ rw (e, unregister_protocol) (AsBefore-refl r)
    | inl (name, e) ↦
        rw (e, unregister_protocol)
          (if-elim (λ (t : Option ProtocolError × Registry H). AsBefore r t.1)
            (not (has (r.handlers name))) (λ _. AsBefore-refl r)
            (λ _. record { privileges_kept = refl; locked_kept = refl }))
  ]

  privileged-Extends :
      (schemes : List SchemePrivilege) (r : Registry H)
      → Extends r (register_schemes_as_privileged table schemes r).1
  unfolding register_schemes_as_privileged
  privileged-Extends schemes r =
      if-elim (λ (t : Option ProtocolError × Registry H). Extends r t.1) r.locked
        (λ _. Extends-same r r refl) (λ _. register_schemes-Extends schemes r)

  perform-Extends : (c : Call H) (r : Registry H) → Extends r (perform table c r)
  unfolding perform lock_privileges
  perform-Extends (privileged_call schemes) r = privileged-Extends schemes r
  perform-Extends lock_call r = Extends-same r (lock_privileges table r) refl
  perform-Extends (handler_call scheme handler) r =
      Extends-same r (register_handler table scheme handler r).1
        (handler-AsBefore scheme handler r).privileges_kept
  perform-Extends (unregister_call scheme) r =
      Extends-same r (unregister_protocol table scheme r).1
        (unregister-AsBefore scheme r).privileges_kept

  -- Whatever calls are made, also those that stop at an error half way through their schemes: the
  -- privileges that a scheme has are never changed or taken away, and a scheme that gets privileges
  -- is allowed extensions only if it is a standard one.
  pub run-Extends : (cs : List (Call H)) (r : Registry H) → Extends r (run table cs r)
  unfolding run
  run-Extends [] r = Extends-same r r refl
  run-Extends (c ∷ cs) r = Extends-trans (perform-Extends c r) (run-Extends cs (perform table c r))

  register_locked :
      (schemes : List SchemePrivilege) (r : Registry H)
      → r.locked ≡ true
      → r ≡ (register_schemes_as_privileged table schemes r).1
  unfolding register_schemes_as_privileged
  register_locked schemes r h =
      if-elim (λ (t : Option ProtocolError × Registry H). r ≡ t.1) r.locked (λ _. refl)
        (λ unlocked. cc (unlocked, h))

  perform-locked : (c : Call H) (r : Registry H) → r.locked ≡ true → AsBefore r (perform table c r)
  unfolding perform lock_privileges register_schemes_as_privileged
  perform-locked (privileged_call schemes) r h =
      subst (AsBefore r) (register_locked schemes r h) (AsBefore-refl r)
  perform-locked lock_call r h = record { privileges_kept = refl; locked_kept = sym h }
  perform-locked (handler_call scheme handler) r h = handler-AsBefore scheme handler r
  perform-locked (unregister_call scheme) r h = unregister-AsBefore scheme r

  run-locked : (cs : List (Call H)) (r : Registry H) → r.locked ≡ true → AsBefore r (run table cs r)
  unfolding run
  run-locked [] r h = AsBefore-refl r
  run-locked (c ∷ cs) r h =
      let first = perform-locked c r h in
      let rest = run-locked cs (perform table c r) (first.locked_kept ∙ h) in
      record {
        privileges_kept = rest.privileges_kept ∙ first.privileges_kept;
        locked_kept = rest.locked_kept ∙ first.locked_kept;
      }

  -- After `LockPrivileges` no sequence of calls changes the privileges of any scheme or takes the
  -- lock away.
  pub lock_stays :
      (cs : List (Call H)) (r : Registry H)
      → let later = run table cs (lock_privileges table r) in
        (later.privileges ≡ r.privileges) × (later.locked ≡ true)
  unfolding lock_privileges
  lock_stays cs r =
      let same = run-locked cs (lock_privileges table r) refl in
      (same.privileges_kept, same.locked_kept)
