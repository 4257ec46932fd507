-- ===== src/Session/Replay/Log.antt =====
-- The change log of internal/session/session.go, replayed.
use golectron.Prelude.{
  ◌≡◌, refl, sym, ap, ◌∙◌, subst, Bool, false, Bool-cases, none, Option-cases, List, [], ◌∷◌, ◌++◌,
  inl, inr, if-elim,
}
use golectron.Text.{Text, text_eq}
use golectron.Dict.{Dict, put, delete}
use golectron.GlobalShortcut.Accelerator.{CaseTable}
use golectron.Session.{
  Cookie, CookieChange, Cookies, cookie_at, put_cookie, addition, delete_cookies, overwritten,
  cookie_key,
}
use golectron.Session.Replay.{all_cookies, replay_change, replay, IsJar}
use golectron.Session.Replay.Jar.{text_eq_at, passed_head, put_at, stored_key}

delete-put_other :
    (k j : Text) (v : Cookie) (d : Dict Cookie)
    → text_eq k j ≡ false
    → delete k (put j v d) ≡ put j v (delete k d)
delete-put_other k j v d other i key = at_key key i
  where
    at_key : (key : Text) → delete k (put j v d) key ≡ put j v (delete k d) key
    at_key key = elim (Bool-cases (text_eq j key)) [
      | inr a ↦ rw a refl
      | inl a ↦ rw (a, subst (λ t. text_eq k t ≡ false) (text_eq_at j key a) other) refl
    ]

delete-put_same : (k : Text) (v : Cookie) (d : Dict Cookie) → d k ≡ none → delete k (put k v d) ≡ d
delete-put_same k v d absent i key = at_key key i
  where
    at_key : (key : Text) → delete k (put k v d) key ≡ d key
    at_key key = elim (Bool-cases (text_eq k key)) [
      | inr a ↦ rw a refl
      | inl a ↦ rw a (sym (subst (λ t. d t ≡ none) (text_eq_at k key a) absent))
    ]

put-delete_same : (k : Text) (v : Cookie) (d : Dict Cookie) → put k v (delete k d) ≡ put k v d
put-delete_same k v d i key = at_key key i
  where
    at_key : (key : Text) → put k v (delete k d) key ≡ put k v d key
    at_key key = elim (Bool-cases (text_eq k key)) [ inl a ↦ rw a refl | inr a ↦ rw a refl ]

module _ (table : CaseTable) where
  -- The removals that a deletion logs leave a key alone that none of its cookies has.
  replay-put_other :
      (matches : Cookie → Bool) (jar : Cookies) (k : Text) (v : Cookie) (d : Dict Cookie)
      → IsJar table jar
      → cookie_at k jar ≡ none
      → replay table (delete_cookies matches jar).1 (put k v d)
        ≡ put k v (replay table (delete_cookies matches jar).1 d)
  unfolding IsJar delete_cookies replay replay_change
  replay-put_other matches [] k v d h e = refl
  replay-put_other matches ((k1, c) ∷ rest) k v d (keyed, once, h) e =
      let passed = passed_head k k1 c rest e in
      if-elim
        (λ (p : Cookies × List CookieChange).
          replay table p.1 (put k v d) ≡ put k v (replay table p.1 d))
        (matches c)
        (λ _.
          ap (replay table (delete_cookies matches rest).1) (
            delete-put_other (cookie_key table c) k v d
              (subst (λ t. text_eq t k ≡ false) keyed passed.0))
          ∙ replay-put_other matches rest k v (delete (cookie_key table c) d) h passed.1)
        (λ _. replay-put_other matches rest k v d h passed.1)

  -- A reader of the removals that a deletion logs is left with the cookies that it leaves.
  pub replay-delete_cookies :
      (matches : Cookie → Bool) (jar : Cookies)
      → IsJar table jar
      → replay table (delete_cookies matches jar).1 (all_cookies jar)
        ≡ all_cookies (delete_cookies matches jar).0
  unfolding IsJar delete_cookies replay replay_change cookie_at
  replay-delete_cookies matches [] h = refl
  replay-delete_cookies matches ((k, c) ∷ rest) (keyed, once, h) =
      let later = replay-delete_cookies matches rest h in
      if-elim
        (λ (p : Cookies × List CookieChange).
          replay table p.1 (all_cookies ((k, c) ∷ rest)) ≡ all_cookies p.0)
        (matches c)
        (λ _.
          ap (replay table (delete_cookies matches rest).1) (
            subst (λ t. delete t (put k c (all_cookies rest)) ≡ all_cookies rest) keyed
              (delete-put_same k c (all_cookies rest) once))
          ∙ later)
        (λ _. replay-put_other matches rest k c (all_cookies rest) h once ∙ ap (put k c) later)

  pub replay-store :
      (c : Cookie) (jar : Cookies)
      → IsJar table jar
      → replay table
          (overwritten (cookie_at (cookie_key table c) jar) ++ addition c ∷ [])
          (all_cookies jar)
        ≡ all_cookies (put_cookie (cookie_key table c) c jar)
  unfolding replay replay_change
  replay-store c jar h =
      let key = cookie_key table c in
      let stored : put key c (all_cookies jar) ≡ all_cookies (put_cookie key c jar) =
        λ i j. sym (put_at j key c jar) i in
      elim (Option-cases (cookie_at key jar)) [
        | inl e ↦ rw e stored
        | inr (old, e) ↦
            rw (e, stored_key table key old jar h e)
              (put-delete_same key c (all_cookies jar) ∙ stored)
      ]
