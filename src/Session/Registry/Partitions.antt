-- ===== src/Session/Registry/Partitions.antt =====
-- The registry of internal/session/session.go gives a partition its session, and that one always.
use golectron.Prelude.{
  ℕ, ◌≡◌, refl, sym, ap, ◌∙◌, subst, false, Option, none, some, Option-cases, List, [], ◌∷◌,
  Outcome, ok, if◌then◌else◌, if-elim, inl, inr,
}
use golectron.Text.{Text, text_eq_refl, is_empty, trim_space}
use golectron.Session.{SessionError}
use golectron.Session.Registry.{
  Registry, new_registry, default_session, partition_session, bad_partition, found, from_partition,
  Call, default_call, partition_call, perform, run,
}
use golectron.Session.Registry.Entered.{
  session_of, IsSessionOf, IsRegistered, Keeps, enter, session_of-enter, enter-Keeps,
  enter-IsRegistered,
}

module _ {H : Type 0} where
  Keeps-refl : (r : Registry H) → Keeps r r
  Keeps-refl r = record { kept = λ j ref e. e }

  default_at :
      (r : Registry H) (ref : ℕ) → session_of [] r ≡ some ref → default_session r ≡ (ref, r)
  unfolding session_of default_session
  default_at r ref e =
      ap (λ (o : Option ℕ). elim o [ some k ↦ (k, r) | none ↦ (r.next, enter [] r) ]) e

  default_fresh :
      (r : Registry H) → session_of [] r ≡ none → default_session r ≡ (r.next, enter [] r)
  unfolding session_of default_session
  default_fresh r e = rw (e, default_session) refl

  partition_at :
      (c : ℕ) (name : Text) (r : Registry H) (ref : ℕ)
      → session_of (c ∷ name) r ≡ some ref
      → partition_session (c ∷ name) r ≡ (ref, r)
  unfolding session_of partition_session
  partition_at c name r ref e = rw (e, partition_session) refl

  partition_fresh :
      (c : ℕ) (name : Text) (r : Registry H)
      → session_of (c ∷ name) r ≡ none
      → partition_session (c ∷ name) r ≡ (r.next, enter (c ∷ name) r)
  unfolding session_of partition_session
  partition_fresh c name r e = rw (e, partition_session) refl

  -- The two sources of a session in `FromPartition`.
  abbrev get : Text → Registry H → Outcome SessionError ℕ × Registry H
  get name r = if is_empty name then found (default_session r) else found (partition_session name r)

  get_at :
      (name : Text) (r : Registry H) (ref : ℕ)
      → session_of name r ≡ some ref
      → get name r ≡ (ok ref, r)
  get_at [] r ref e = ap found (default_at r ref e)
  get_at (c ∷ name) r ref e = ap found (partition_at c name r ref e)

  get_fresh :
      (name : Text) (r : Registry H)
      → session_of name r ≡ none
      → get name r ≡ (ok r.next, enter name r)
  get_fresh [] r e = ap found (default_fresh r e)
  get_fresh (c ∷ name) r e = ap found (partition_fresh c name r e)

  -- What `FromPartition` did for an acceptable name.
  record Gets (name : Text) (r : Registry H) (t : Outcome SessionError ℕ × Registry H)
      : Type 0 where
    keeps : Keeps r t.1
    registered : IsRegistered r → IsRegistered t.1
    given : (ref : ℕ) → t.0 ≡ ok ref → session_of name t.1 ≡ some ref

  get-Gets : (name : Text) (r : Registry H) → Gets name r (get name r)
  get-Gets name r = elim (Option-cases (session_of name r)) [
    | inr (ref, e) ↦
        subst (Gets name r) (sym (get_at name r ref e))
          (record { keeps = Keeps-refl r; registered = λ h. h; given = λ j f. cc (e, f) })
    | inl e ↦ subst (Gets name r) (sym (get_fresh name r e)) (record {
      keeps = enter-Keeps name r e;
      registered = enter-IsRegistered name r;
      given = λ j f. session_of-enter name name r ∙ rw (text_eq_refl name) (cc f);
    })
  ]

  from_partition-Gets :
      (raw : Text) (r : Registry H) → Gets (trim_space raw) r (from_partition raw r)
  unfolding from_partition
  from_partition-Gets raw r =
      if-elim (Gets (trim_space raw) r) (bad_partition (trim_space raw))
        (λ _. record { keeps = Keeps-refl r; registered = λ h. h; given = λ j f. cc f })
        (λ _. get-Gets (trim_space raw) r)

  from_partition_at :
      (raw : Text) (r : Registry H) (ref : ℕ)
      → bad_partition (trim_space raw) ≡ false
      → session_of (trim_space raw) r ≡ some ref
      → from_partition raw r ≡ (ok ref, r)
  unfolding from_partition
  from_partition_at raw r ref good e = rw (good, from_partition) (get_at (trim_space raw) r ref e)

  from_partition_good :
      (raw : Text) (r : Registry H) (ref : ℕ)
      → (from_partition raw r).0 ≡ ok ref
      → bad_partition (trim_space raw) ≡ false
  unfolding from_partition
  from_partition_good raw r ref =
      if-elim
        (λ (t : Outcome SessionError ℕ × Registry H).
          t.0 ≡ ok ref → bad_partition (trim_space raw) ≡ false)
        (bad_partition (trim_space raw)) (λ _ e. cc e) (λ good _. good)

  default-Gets : (r : Registry H) → Gets [] r (found (default_session r))
  default-Gets r = get-Gets [] r

  perform-Keeps : (c : Call) (r : Registry H) → Keeps r (perform c r)
  unfolding perform
  perform-Keeps default_call r = (default-Gets r).keeps
  perform-Keeps (partition_call partition) r = (from_partition-Gets partition r).keeps

  run-Keeps : (cs : List Call) (r : Registry H) → Keeps r (run cs r)
  unfolding run
  run-Keeps [] r = Keeps-refl r
  run-Keeps (c ∷ cs) r = record {
    kept = λ j ref e. (run-Keeps cs (perform c r)).kept j ref ((perform-Keeps c r).kept j ref e);
  }

  perform-IsRegistered : (c : Call) (r : Registry H) → IsRegistered r → IsRegistered (perform c r)
  unfolding perform
  perform-IsRegistered default_call r = (default-Gets r).registered
  perform-IsRegistered (partition_call partition) r = (from_partition-Gets partition r).registered

  run-IsRegistered : (cs : List Call) (r : Registry H) → IsRegistered r → IsRegistered (run cs r)
  unfolding run
  run-IsRegistered [] r h = h
  run-IsRegistered (c ∷ cs) r h = run-IsRegistered cs (perform c r) (perform-IsRegistered c r h)

  new_registry-IsRegistered : IsRegistered (new_registry {H = H})
  unfolding new_registry session_of
  new_registry-IsRegistered = record { own = absent }
    where
      absent :
          (name : Text) (ref : ℕ)
          → session_of name (new_registry {H = H}) ≡ some ref
          → IsSessionOf {H = H} name ref new_registry
      absent [] ref e = cc e
      absent (c ∷ name) ref e = cc e

  -- Once `FromPartition` gave a session for a partition, it gives this same session after whatever
  -- calls come in between, for every spelling of the partition that trims to the same name.
  pub from_partition_again :
      (raw raw' : Text) (ref : ℕ) (cs : List Call) (r : Registry H)
      → trim_space raw' ≡ trim_space raw
      → (from_partition raw r).0 ≡ ok ref
      → (from_partition raw' (run cs (from_partition raw r).1)).0 ≡ ok ref
  from_partition_again raw raw' ref cs r same e =
      let got = from_partition-Gets raw r in
      let later = run cs (from_partition raw r).1 in
      let held =
        (run-Keeps cs (from_partition raw r).1).kept (trim_space raw) ref (got.given ref e) in
      ap (λ (t : Outcome SessionError ℕ × Registry H). t.0)
        (from_partition_at raw' later ref (ap bad_partition same ∙ from_partition_good raw r ref e)
          (ap (λ name. session_of name later) same ∙ held))

  -- Whatever calls a new registry gets: the session that `FromPartition` then gives for a partition
  -- is an allocated one, names the trimmed partition, and is persistent exactly when that is empty
  -- or starts with the prefix for persistent partitions.
  pub from_partition-run :
      (raw : Text) (ref : ℕ) (cs : List Call)
      → (from_partition raw (run cs (new_registry {H = H}))).0 ≡ ok ref
      → IsSessionOf (trim_space raw) ref (from_partition raw (run cs (new_registry {H = H}))).1
  from_partition-run raw ref cs e =
      let r = run cs (new_registry {H = H}) in
      let got = from_partition-Gets raw r in
      (got.registered (run-IsRegistered cs new_registry new_registry-IsRegistered)).own
        (trim_space raw) ref (got.given ref e)
