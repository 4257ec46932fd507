-- ===== src/SafeStorage.antt =====
-- internal/safestorage/storage.go: strings that are kept with a code of a key. Strings are bytes.
-- `hmac` is crypto/hmac with SHA-256, `encode` and `decode` are the standard base64 encoding.
pub mod Kept
pub mod Tests
use golectron.Prelude.{
  ℕ, Bool, true, false, not, ◌&&◌, ◌||◌, ◌==◌, ltb, Option, none, some, List, [], ◌∷◌, ◌++◌, take,
  drop, length, Outcome, ok, err, if◌then◌else◌,
}
use golectron.Text.{Text, codes, text_eq, is_empty}

pub data StorageError : Type 0 where
  unavailable invalid_backend invalid_ciphertext : StorageError

abbrev pub backend_basic_text : Text
backend_basic_text = codes "basic_text"

abbrev pub backend_keychain : Text
backend_keychain = codes "keychain"

abbrev pub backend_libsecret : Text
backend_libsecret = codes "libsecret"

abbrev pub backend_kwallet : Text
backend_kwallet = codes "kwallet"

pub record Storage : Type 0 where
  pub backend : Text
  pub available : Bool
  pub key : List ℕ

abbrev pub is_valid_backend : Text → Bool
is_valid_backend b =
    text_eq b backend_basic_text
    || text_eq b backend_keychain
    || text_eq b backend_libsecret
    || text_eq b backend_kwallet

pub new_storage : Text → Bool → List ℕ → Outcome StorageError Storage
new_storage raw available key =
    let backend = if is_empty raw then backend_basic_text else raw in
    if not (is_valid_backend backend)
    then err invalid_backend
    else ok (record {
      backend = backend;
      available = available;
      key = if is_empty key then codes "electron-go-safe-storage" else key;
    })

-- The text in front of the first colon, and the text behind it.
pub cut_colon : Text → Option (Text × Text)
cut_colon [] = none
cut_colon (c ∷ s) =
    let rest = cut_colon s in
    if c == b':' then some ([], s) else elim rest [ none ↦ none | some (a, b) ↦ some (c ∷ a, b) ]

-- `strings.SplitN(s, ":", 3)`, where it has three parts.
pub split_three : Text → Option (Text × (Text × Text))
split_three s = elim (cut_colon s) [
  | none ↦ none
  | some (a, rest) ↦ elim (cut_colon rest) [ none ↦ none | some (b, c) ↦ some (a, (b, c)) ]
]

-- The prefix of every ciphertext.
abbrev pub egsafe : Text
egsafe = codes "egsafe"

-- `sha256.Size`
abbrev pub sum_size : ℕ
sum_size = 32

module _ (hmac : List ℕ → List ℕ → List ℕ) where
  -- The code of a string.
  pub sum_of : Storage → List ℕ → List ℕ
  sum_of s plain = hmac s.key (s.backend ++ 0 ∷ plain)

  pub encrypt_string : (List ℕ → Text) → List ℕ → Storage → Outcome StorageError Text
  encrypt_string encode plain s =
      if not s.available
      then err unavailable
      else ok (egsafe ++ b':' ∷ (s.backend ++ b':' ∷ encode (sum_of s plain ++ plain)))

  -- The end of `DecryptString`, for a payload.
  pub open_payload : List ℕ → Storage → Outcome StorageError (List ℕ)
  open_payload payload s =
      if ltb (length payload) sum_size
      then err invalid_ciphertext
      else if not (text_eq (take sum_size payload) (sum_of s (drop sum_size payload)))
      then err invalid_ciphertext
      else ok (drop sum_size payload)

  pub decrypt_string : (Text → Option (List ℕ)) → Text → Storage → Outcome StorageError (List ℕ)
  decrypt_string decode ciphertext s =
      if not s.available then err unavailable else elim (split_three ciphertext) [
        | none ↦ err invalid_ciphertext
        | some (prefix, (backend, body)) ↦
            if not (text_eq prefix egsafe) || not (text_eq backend s.backend)
            then err invalid_ciphertext
            else elim (decode body) [
              | none ↦ err invalid_ciphertext
              | some payload ↦ open_payload payload s
            ]
      ]
