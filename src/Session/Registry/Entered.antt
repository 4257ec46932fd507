-- ===== src/Session/Registry/Entered.antt =====
-- The registry of internal/session/session.go, when a session is entered for a name.
use golectron.Prelude.{
  ℕ, ◌≡◌, refl, sym, ap, ◌∙◌, subst, true, false, ◌||◌, ◌+◌, ◌==◌, ==_iff, ltb, Bool-cases, Option,
  none, some, [], ◌∷◌, if◌then◌else◌, inl, inr, arith,
}
use golectron.Text.{Text, text_eq, text_eq_iff, is_empty, has_prefix}
use golectron.Dict.{put}
use golectron.Session.{Session, new_session}
use golectron.Session.Registry.{Registry, persist_prefix, allocate}

-- Which session a partition has: the default one for the empty name.
unfoldable pub session_of : {H : Type 0} → Text → Registry H → Option ℕ
session_of [] r = r.defaults
session_of (c ∷ name) r = r.by_name (c ∷ name)

-- The session at `ref` is the one of the partition `name`.
pub record IsSessionOf {H : Type 0} (name : Text) (ref : ℕ) (r : Registry H) : Type 0 where
  pub allocated : ltb ref r.next ≡ true
  pub partition : (r.sessions ref).partition ≡ name
  pub persistent : (r.sessions ref).persistent ≡ is_empty name || has_prefix name persist_prefix

-- Each partition's session is its own: the session names the partition, and is persistent exactly
-- for the default partition and for names with the prefix.
pub record IsRegistered {H : Type 0} (r : Registry H) : Type 0 where
  pub own : (name : Text) (ref : ℕ) → session_of name r ≡ some ref → IsSessionOf name ref r

-- What a call keeps.
pub record Keeps {H : Type 0} (a b : Registry H) : Type 0 where
  pub kept : (name : Text) (ref : ℕ) → session_of name a ≡ some ref → session_of name b ≡ some ref

-- The session of a name that has none yet.
abbrev pub enter : {H : Type 0} → Text → Registry H → Registry H
enter name r =
    let s = new_session name (is_empty name || has_prefix name persist_prefix) in
    elim name [
      | [] ↦ record (allocate s r) { defaults = some r.next }
      | c ∷ cs ↦ record (allocate s r) { by_name = put (c ∷ cs) r.next r.by_name }
    ]

module _ {H : Type 0} where
  pub session_of-enter :
      (name j : Text) (r : Registry H)
      → session_of j (enter name r) ≡ (if text_eq name j then some r.next else session_of j r)
  unfolding session_of text_eq
  session_of-enter [] [] r = refl
  session_of-enter [] (d ∷ j) r = refl
  session_of-enter (c ∷ name) [] r = refl
  session_of-enter (c ∷ name) (d ∷ j) r = refl

  enter_old :
      (name j : Text) (ref : ℕ) (r : Registry H)
      → text_eq name j ≡ false
      → session_of j (enter name r) ≡ session_of j r
  enter_old name j ref r other = session_of-enter name j r ∙ rw other refl

  pub enter-Keeps :
      (name : Text) (r : Registry H) → session_of name r ≡ none → Keeps r (enter name r)
  enter-Keeps name r fresh = record {
    kept = λ j ref e. elim (Bool-cases (text_eq name j)) [
      | inr other ↦ session_of-enter name j r ∙ rw other e
      | inl same ↦ cc (e, fresh, ap (λ t. session_of t r) ((text_eq_iff name j).0 same))
    ];
  }

  enter_sessions :
      (name : Text) (r : Registry H) (ref : ℕ)
      → (enter name r).sessions ref ≡ (
          if ref == r.next
          then new_session name (is_empty name || has_prefix name persist_prefix)
          else r.sessions ref)
  enter_sessions [] r ref = refl
  enter_sessions (c ∷ name) r ref = refl

  enter_next : (name : Text) (r : Registry H) → (enter name r).next ≡ r.next + 1
  enter_next [] r = refl
  enter_next (c ∷ name) r = refl

  -- The session that is entered.
  entered-IsSessionOf : (name : Text) (r : Registry H) → IsSessionOf name r.next (enter name r)
  unfolding new_session
  entered-IsSessionOf name r =
      let here : (enter name r).sessions r.next
          ≡ new_session name (is_empty name || has_prefix name persist_prefix) =
        enter_sessions name r r.next ∙ rw ((==_iff r.next r.next).1 refl) refl in
      record {
        allocated = ground (arith, enter_next name r);
        partition = ap (λ (s : Session H). s.partition) here;
        persistent = ap (λ (s : Session H). s.persistent) here;
      }

  older-IsSessionOf :
      (name j : Text) (ref : ℕ) (r : Registry H)
      → IsSessionOf j ref r
      → IsSessionOf j ref (enter name r)
  older-IsSessionOf name j ref r h =
      let there : (ref == r.next) ≡ false = ground (arith, h.allocated) in
      let same : (enter name r).sessions ref ≡ r.sessions ref =
        enter_sessions name r ref ∙ rw there refl in
      record {
        allocated = ground (arith, h.allocated, enter_next name r);
        partition = ap (λ (s : Session H). s.partition) same ∙ h.partition;
        persistent = ap (λ (s : Session H). s.persistent) same ∙ h.persistent;
      }

  pub enter-IsRegistered :
      (name : Text) (r : Registry H) → IsRegistered r → IsRegistered (enter name r)
  enter-IsRegistered name r h = record {
    own = λ j ref e. elim (Bool-cases (text_eq name j)) [
      | inr other ↦
          older-IsSessionOf name j ref r (h.own j ref (sym (enter_old name j ref r other) ∙ e))
      | inl same ↦
          let given : some r.next ≡ some ref = sym (session_of-enter name j r ∙ rw same refl) ∙ e in
          let at : r.next ≡ ref = cc given in
          subst (λ t. IsSessionOf t ref (enter name r)) ((text_eq_iff name j).0 same)
            (subst (λ k. IsSessionOf name k (enter name r)) at (entered-IsSessionOf name r))
    ];
  }
