-- ===== src/SafeStorage/Tests.antt =====
-- Runs of internal/safestorage/storage.go, and the theorems at a concrete storage.
use golectron.Prelude.{ℕ, ◌≡◌, refl, true, Option, some, List, [], ◌∷◌, length, ok}
use golectron.Text.{Text, codes, text_eq}
use golectron.SafeStorage.{Storage, new_storage, sum_size, encrypt_string, decrypt_string}
use golectron.SafeStorage.Kept.{reveal, decrypt-encrypt, reveal-encrypt}

-- A code of 32 bytes, and the encoding that changes nothing.
abbrev code : List ℕ → List ℕ → List ℕ
code key message = codes "................................"

code_size : (key message : List ℕ) → length (code key message) ≡ sum_size
code_size key message = refl

abbrev encode : List ℕ → Text
encode bytes = bytes

abbrev decode : Text → Option (List ℕ)
decode text = some text

abbrev keychain : Storage
keychain = record { backend = codes "keychain"; available = true; key = 1 ∷ [] }

keychain_given : new_storage (codes "keychain") true (1 ∷ []) ≡ ok keychain
unfolding new_storage text_eq
keychain_given = refl

decrypt-encrypt_example :
    (c : Text) × (encrypt_string code encode (5 ∷ []) keychain ≡ ok c)
    × (decrypt_string code decode c keychain ≡ ok (5 ∷ []))
decrypt-encrypt_example =
    decrypt-encrypt code encode decode code_size (λ bytes. refl) (codes "keychain") (1 ∷ [])
      (5 ∷ []) keychain keychain_given

reveal-encrypt_example :
    (c : Text) × (encrypt_string code encode (5 ∷ []) keychain ≡ ok c)
    × (reveal decode c ≡ some (5 ∷ []))
reveal-encrypt_example =
    reveal-encrypt code encode decode code_size (λ bytes. refl) (codes "keychain") (1 ∷ []) (5 ∷ [])
      keychain keychain_given
