-- ===== src/Asar/Pickle.antt =====
-- The pickles of internal/asar/archive.go: a 32-bit number, or a string, with its size in front.
-- A byte is a number below 256. A slice `buffer[i:j]` is `none` where Go would panic.
pub mod RoundTrip
use golectron.Prelude.{
  ℕ, zero, suc, ◌+◌, ◌-◌, ◌*◌, ◌/◌, ◌%◌, ◌^◌, Bool, true, false, ◌&&◌, ◌||◌, Option, none, some,
  List, [], ◌∷◌, ◌++◌, Outcome, ok, err, length, take, drop, ltb, leb, ◌==◌, if◌then◌else◌,
}

pub data PickleError : Type 0 where
  pickle pickle_payload pickle_string : PickleError

pub slice : List ℕ → ℕ → ℕ → Option (List ℕ)
slice buffer i j =
    if leb i j && leb j (length buffer) then some (take (j - i) (drop i buffer)) else none

-- `binary.LittleEndian.PutUint32`, of a number cut to 32 bits.
pub put_uint32 : ℕ → List ℕ
put_uint32 n = n % 256 ∷ n / 256 % 256 ∷ n / 256 ^ 2 % 256 ∷ n / 256 ^ 3 % 256 ∷ []

-- `binary.LittleEndian.Uint32`, which panics on fewer than four bytes.
pub get_uint32 : List ℕ → Option ℕ
get_uint32 (a ∷ b ∷ c ∷ d ∷ rest) = some (a + b * 256 + c * 256 ^ 2 + d * 256 ^ 3)
get_uint32 _ = none

-- `make([]byte, n)`
abbrev pub zeros : ℕ → List ℕ
zeros zero = []
zeros (suc n) = 0 ∷ zeros n

pub align4 : ℕ → ℕ
align4 n = if n % 4 == 0 then n else n + (4 - n % 4)

pub write_pickle_uint32 : ℕ → List ℕ
write_pickle_uint32 value = put_uint32 4 ++ put_uint32 value

-- The buffer of 4 + payload bytes, with the string copied to its place.
pub write_pickle_string : List ℕ → List ℕ
write_pickle_string value =
    let payload_size = align4 (4 + length value) in
    put_uint32 payload_size
    ++ (put_uint32 (length value) ++ (value ++ zeros (payload_size - 4 - length value)))

-- A bad slice or number is a panic: the reader itself is then `none`.
abbrev pub then_read : {A B : Type 0} → Option A → (A → Option B) → Option B
then_read none k = none
then_read (some a) k = k a

pub uint32_at : List ℕ → ℕ → Option ℕ
uint32_at buffer i = then_read (slice buffer i (i + 4)) get_uint32

abbrev Read : Type 0 → Type 0
Read A = Option (Outcome PickleError A)

-- `payloadSize < 4 || int(payloadSize) > len(buffer)-4`
abbrev bad_payload : ℕ → List ℕ → Bool
bad_payload payload_size buffer = ltb payload_size 4 || ltb (length buffer - 4) payload_size

pub read_pickle_uint32 : List ℕ → Read ℕ
read_pickle_uint32 buffer =
    if ltb (length buffer) 8
    then some (err pickle)
    else then_read (uint32_at buffer 0) (λ payload_size.
      if bad_payload payload_size buffer
      then some (err pickle_payload)
      else then_read (uint32_at buffer 4) (λ value. some (ok value)))

-- The last test and the slice of `readPickleString`.
pub cut_string : ℕ → ℕ → List ℕ → Read (List ℕ)
cut_string payload_size size buffer =
    if ltb (payload_size - 4) size || ltb (length buffer) (8 + size)
    then some (err pickle_string)
    else then_read (slice buffer 8 (8 + size)) (λ s. some (ok s))

pub read_pickle_string : List ℕ → Read (List ℕ)
read_pickle_string buffer =
    if ltb (length buffer) 8
    then some (err pickle)
    else then_read (uint32_at buffer 0) (λ payload_size.
      if bad_payload payload_size buffer
      then some (err pickle_payload)
      else then_read (uint32_at buffer 4) (λ size. cut_string payload_size size buffer))
