-- ===== src/SafeStorage/Kept.antt =====
-- What internal/safestorage/storage.go keeps of a string: all of it, for whoever reads the text.
use golectron.Prelude.{
  ℕ, ◌≡◌, refl, sym, ap, subst, Bool, true, false, not, ◌==◌, ltb, Bool-cases, Option, none, some,
  List, [], ◌∷◌, ◌++◌, take, drop, length, length-append, take-append, drop-append, any, Outcome,
  ok, if◌then◌else◌, if-elim, inl, inr, arith,
}
use golectron.Text.{Text, text_eq, text_eq_refl, text_eq_iff, is_empty}
use golectron.SafeStorage.{
  StorageError, backend_basic_text, backend_keychain, backend_libsecret, backend_kwallet, Storage,
  is_valid_backend, new_storage, cut_colon, split_three, egsafe, sum_size, sum_of, encrypt_string,
  open_payload, decrypt_string,
}

abbrev has_colon : Text → Bool
has_colon s = any (λ c. c == b':') s

cut_colon-append : (p r : Text) → has_colon p ≡ false → cut_colon (p ++ b':' ∷ r) ≡ some (p, r)
unfolding cut_colon
cut_colon-append [] r h = refl
cut_colon-append (c ∷ p) r h =
    let here : (c == b':') ≡ false = ground (arith, h) in
    let later : has_colon p ≡ false = ground (arith, h) in
    rw (here, cut_colon-append p r later) refl

split_three-append :
    (p q r : Text)
    → has_colon p ≡ false
    → has_colon q ≡ false
    → split_three (p ++ b':' ∷ (q ++ b':' ∷ r)) ≡ some (p, (q, r))
unfolding split_three
split_three-append p q r h k =
    rw (cut_colon-append p (q ++ b':' ∷ r) h, cut_colon-append q r k, split_three) refl

-- No backend has a colon in its name.
valid_colon : (b : Text) → is_valid_backend b ≡ true → has_colon b ≡ false
valid_colon b h = elim (Bool-cases (text_eq b backend_basic_text)) [
  | inl e ↦ subst (λ t. has_colon t ≡ false) (sym ((text_eq_iff b backend_basic_text).0 e)) refl
  | inr e ↦ elim (Bool-cases (text_eq b backend_keychain)) [
    | inl f ↦ subst (λ t. has_colon t ≡ false) (sym ((text_eq_iff b backend_keychain).0 f)) refl
    | inr f ↦ elim (Bool-cases (text_eq b backend_libsecret)) [
      | inl g ↦ subst (λ t. has_colon t ≡ false) (sym ((text_eq_iff b backend_libsecret).0 g)) refl
      | inr g ↦
          let last : text_eq b backend_kwallet ≡ true = ground (arith, e, f, g, h) in
          subst (λ t. has_colon t ≡ false) (sym ((text_eq_iff b backend_kwallet).0 last)) refl
    ]
  ]
]

-- What `New` gives: a storage with a known backend, as available as it was asked to be.
record IsStorage (available : Bool) (s : Storage) : Type 0 where
  valid : is_valid_backend s.backend ≡ true
  asked : s.available ≡ available

same_storage : {s t : Storage} → Path (Outcome StorageError Storage) (ok s) (ok t) → s ≡ t
same_storage e = cc e

negated : {b : Bool} → not b ≡ false → b ≡ true
negated {b} h = ground arith

new_storage-IsStorage :
    (raw : Text) (available : Bool) (key : List ℕ) (s : Storage)
    → new_storage raw available key ≡ ok s
    → IsStorage available s
unfolding new_storage
new_storage-IsStorage raw available key s =
    let backend = if is_empty raw then backend_basic_text else raw in
    if-elim (λ (o : Outcome StorageError Storage). o ≡ ok s → IsStorage available s)
      (not (is_valid_backend backend)) (λ _ e. cc e)
      (λ good e.
        subst (IsStorage available) (same_storage e)
          (record { valid = negated good; asked = refl }))

-- What a reader with no key makes of a text: the payload behind the code.
pub reveal : (Text → Option (List ℕ)) → Text → Option (List ℕ)
reveal decode text = elim (split_three text) [
  | none ↦ none
  | some (prefix, (backend, body)) ↦ elim (decode body) [
    | none ↦ none
    | some payload ↦ some (drop sum_size payload)
  ]
]

module _ (hmac : List ℕ → List ℕ → List ℕ) (encode : List ℕ → Text)
    (decode : Text → Option (List ℕ))
    (sum_length : (key message : List ℕ) → length (hmac key message) ≡ sum_size)
    (decode_encode : (bytes : List ℕ) → decode (encode bytes) ≡ some bytes) where
  abbrev pub ciphertext : List ℕ → Storage → Text
  ciphertext plain s = egsafe ++ b':' ∷ (s.backend ++ b':' ∷ encode (sum_of hmac s plain ++ plain))

  behind_sum : (plain : List ℕ) (s : Storage) → drop sum_size (sum_of hmac s plain ++ plain) ≡ plain
  unfolding sum_of
  behind_sum plain s =
      subst (λ n. drop n (sum_of hmac s plain ++ plain) ≡ plain)
        (sum_length s.key (s.backend ++ 0 ∷ plain)) (drop-append (sum_of hmac s plain) plain)

  front_sum :
      (plain : List ℕ) (s : Storage)
      → take sum_size (sum_of hmac s plain ++ plain) ≡ sum_of hmac s plain
  unfolding sum_of
  front_sum plain s =
      subst (λ n. take n (sum_of hmac s plain ++ plain) ≡ sum_of hmac s plain)
        (sum_length s.key (s.backend ++ 0 ∷ plain)) (take-append (sum_of hmac s plain) plain)

  sum_fits :
      (plain : List ℕ) (s : Storage) → ltb (length (sum_of hmac s plain ++ plain)) sum_size ≡ false
  unfolding sum_of
  sum_fits plain s =
      ground (
        arith,
        length-append (sum_of hmac s plain) plain,
        sum_length s.key (s.backend ++ 0 ∷ plain),
      )

  open_payload_own :
      (plain : List ℕ) (s : Storage) → open_payload hmac (sum_of hmac s plain ++ plain) s ≡ ok plain
  unfolding open_payload
  open_payload_own plain s =
      rw
        (
          sum_fits plain s,
          front_sum plain s,
          behind_sum plain s,
          text_eq_refl (sum_of hmac s plain),
        )
        refl

  encrypt_available :
      (plain : List ℕ) (s : Storage)
      → s.available ≡ true
      → encrypt_string hmac encode plain s ≡ ok (ciphertext plain s)
  unfolding encrypt_string
  encrypt_available plain s a = rw (a, encrypt_string) refl

  split_own :
      (plain : List ℕ) (s : Storage)
      → is_valid_backend s.backend ≡ true
      → split_three (ciphertext plain s)
        ≡ some (egsafe, (s.backend, encode (sum_of hmac s plain ++ plain)))
  split_own plain s v =
      split_three-append egsafe s.backend (encode (sum_of hmac s plain ++ plain)) refl
        (valid_colon s.backend v)

  decrypt_own :
      (plain : List ℕ) (s : Storage)
      → is_valid_backend s.backend ≡ true
      → s.available ≡ true
      → decrypt_string hmac decode (ciphertext plain s) s ≡ ok plain
  unfolding decrypt_string split_three cut_colon sum_of
  decrypt_own plain s v a =
      rw
        (
          a,
          split_own plain s v,
          text_eq_refl egsafe,
          text_eq_refl s.backend,
          decode_encode (sum_of hmac s plain ++ plain),
          decrypt_string,
        )
        (open_payload_own plain s)

  reveal_own :
      (plain : List ℕ) (s : Storage)
      → is_valid_backend s.backend ≡ true
      → reveal decode (ciphertext plain s) ≡ some plain
  unfolding reveal
  reveal_own plain s v =
      rw (split_own plain s v, decode_encode (sum_of hmac s plain ++ plain), reveal)
        (ap some (behind_sum plain s))

  -- Where codes have 32 bytes and decoding undoes encoding: an available storage that `New` gives
  -- encrypts every string, and decrypts what it gave back to the string.
  pub decrypt-encrypt :
      (raw : Text) (key plain : List ℕ) (s : Storage)
      → new_storage raw true key ≡ ok s
      → (c : Text) × (encrypt_string hmac encode plain s ≡ ok c)
        × (decrypt_string hmac decode c s ≡ ok plain)
  decrypt-encrypt raw key plain s e =
      let is = new_storage-IsStorage raw true key s e in
      (
        ciphertext plain s,
        encrypt_available plain s is.asked,
        decrypt_own plain s is.valid is.asked,
      )

  -- Nothing is hidden: where codes have 32 bytes and decoding undoes encoding, a reader who has no
  -- key reads every string in what an available storage encrypts it to.
  pub reveal-encrypt :
      (raw : Text) (key plain : List ℕ) (s : Storage)
      → new_storage raw true key ≡ ok s
      → (c : Text) × (encrypt_string hmac encode plain s ≡ ok c) × (reveal decode c ≡ some plain)
  reveal-encrypt raw key plain s e =
      let is = new_storage-IsStorage raw true key s e in
      (ciphertext plain s, encrypt_available plain s is.asked, reveal_own plain s is.valid)
