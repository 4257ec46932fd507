-- ===== src/Session/Replay/Jar.antt =====
-- The list of cookies of internal/session/session.go: lookups in it, and that its keys stay its own.
use golectron.Prelude.{
  ◌≡◌, refl, sym, ap, ◌∙◌, subst, Bool, true, false, Bool-cases, none, some, List, [], ◌∷◌, inl,
  inr, if◌then◌else◌, if-elim,
}
use golectron.Text.{Text, text_eq, text_eq_iff, text_eq_refl, text_eq_sym}
use golectron.GlobalShortcut.Accelerator.{CaseTable}
use golectron.Session.{
  Cookie, CookieChange, Cookies, cookie_at, put_cookie, delete_cookies, cookie_key,
}
use golectron.Session.Replay.{IsJar}

pub text_eq_at : (k j : Text) → text_eq k j ≡ true → k ≡ j
text_eq_at k j = (text_eq_iff k j).0

-- The key of an entry that a lookup passes over.
pub passed_head :
    (key k : Text) (c : Cookie) (rest : Cookies)
    → cookie_at key ((k, c) ∷ rest) ≡ none
    → (text_eq k key ≡ false) × (cookie_at key rest ≡ none)
unfolding cookie_at
passed_head key k c rest e = elim (Bool-cases (text_eq k key)) [
  | inl same ↦ cc (e, ap (λ b. if b then some c else cookie_at key rest) same)
  | inr other ↦ (other, sym (ap (λ b. if b then some c else cookie_at key rest) other) ∙ e)
]

missing_head :
    (key k : Text) (c : Cookie) (rest : Cookies)
    → text_eq k key ≡ false
    → cookie_at key rest ≡ none
    → cookie_at key ((k, c) ∷ rest) ≡ none
unfolding cookie_at
missing_head key k c rest other e = rw other e

pub put_at :
    (key k : Text) (c : Cookie) (jar : Cookies)
    → cookie_at key (put_cookie k c jar) ≡ (if text_eq k key then some c else cookie_at key jar)
unfolding cookie_at put_cookie
put_at key k c [] = refl
put_at key k c ((k0, old) ∷ rest) = elim (Bool-cases (text_eq k0 k)) [
  | inl same ↦
      subst
        (λ j.
          cookie_at key (put_cookie j c ((k0, old) ∷ rest))
          ≡ (if text_eq j key then some c else cookie_at key ((k0, old) ∷ rest)))
        (text_eq_at k0 k same)
        (elim (Bool-cases (text_eq k0 key)) [
          | inl a ↦ rw (text_eq_refl k0, a) refl
          | inr a ↦ rw (text_eq_refl k0, a) refl
        ])
  | inr other ↦ elim (Bool-cases (text_eq k0 key)) [
    | inr a ↦ rw (other, a) (put_at key k c rest)
    | inl a ↦
        rw
          (
            other,
            a,
            subst (λ j. text_eq k j ≡ false) (text_eq_at k0 key a) (text_eq_sym k k0 ∙ other),
          )
          refl
  ]
]

-- Where no entry has the key, the cookies left have none under it either.
delete_cookies_passed :
    (matches : Cookie → Bool) (key : Text) (jar : Cookies)
    → cookie_at key jar ≡ none
    → cookie_at key (delete_cookies matches jar).0 ≡ none
unfolding delete_cookies
delete_cookies_passed matches key [] e = e
delete_cookies_passed matches key ((k, c) ∷ rest) e =
    let later = delete_cookies_passed matches key rest (passed_head key k c rest e).1 in
    if-elim (λ (p : Cookies × List CookieChange). cookie_at key p.0 ≡ none) (matches c) (λ _. later)
      (λ _.
        missing_head key k c (delete_cookies matches rest).0 (passed_head key k c rest e).0 later)

module _ (table : CaseTable) where
  pub put_cookie-IsJar :
      (c : Cookie) (jar : Cookies)
      → IsJar table jar
      → IsJar table (put_cookie (cookie_key table c) c jar)
  unfolding IsJar put_cookie cookie_at
  put_cookie-IsJar c [] h = (refl, refl, tt)
  put_cookie-IsJar c ((k, old) ∷ rest) (keyed, once, h) =
      if-elim (IsJar table) (text_eq k (cookie_key table c))
        (λ same. (text_eq_at k (cookie_key table c) same, once, h))
        (λ other. (
          keyed,
          put_at k (cookie_key table c) c rest
              ∙ rw (text_eq_sym (cookie_key table c) k ∙ other) once,
          put_cookie-IsJar c rest h,
        ))

  pub delete_cookies-IsJar :
      (matches : Cookie → Bool) (jar : Cookies)
      → IsJar table jar
      → IsJar table (delete_cookies matches jar).0
  unfolding IsJar delete_cookies
  delete_cookies-IsJar matches [] h = h
  delete_cookies-IsJar matches ((k, c) ∷ rest) (keyed, once, h) =
      if-elim (λ (p : Cookies × List CookieChange). IsJar table p.0) (matches c)
        (λ _. delete_cookies-IsJar matches rest h)
        (λ _.
          (keyed, delete_cookies_passed matches k rest once, delete_cookies-IsJar matches rest h))

  pub stored_key :
      (key : Text) (old : Cookie) (jar : Cookies)
      → IsJar table jar
      → cookie_at key jar ≡ some old
      → cookie_key table old ≡ key
  unfolding IsJar cookie_at
  stored_key key old [] h e = cc e
  stored_key key old ((k, c) ∷ rest) (keyed, once, h) e = elim (Bool-cases (text_eq k key)) [
    | inr other ↦
        stored_key key old rest h
          (sym (ap (λ b. if b then some c else cookie_at key rest) other) ∙ e)
    | inl same ↦
        let found : some c ≡ some old =
          sym (ap (λ b. if b then some c else cookie_at key rest) same) ∙ e in
        let here : c ≡ old = cc found in
        sym (ap (cookie_key table) here) ∙ sym keyed ∙ text_eq_at k key same
  ]
