-- ===== src/Asar/Pickle/RoundTrip.antt =====
-- A pickle of internal/asar/archive.go that was written is read back, and reading one never slices
-- out of range.
use golectron.Prelude.{
  take-append, drop-append, ℕ, zero, suc, ◌+◌, ◌-◌, ◌^◌, ◌<◌, ◌≤◌, ◌≡◌, refl, sym, ap, true, false,
  ◌&&◌, ◌||◌, Option, some, List, [], ◌∷◌, ◌++◌, append_assoc, append-nil, Outcome, ok, err, length,
  length-append, take, drop, ltb, leb, if-elim, arith, subst,
}
use golectron.Asar.Pickle.{
  PickleError, pickle, pickle_payload, pickle_string, slice, put_uint32, get_uint32, zeros, align4,
  write_pickle_uint32, write_pickle_string, uint32_at, bad_payload, read_pickle_uint32, cut_string,
  read_pickle_string,
}

pub length-take : (n : ℕ) (xs : List ℕ) → n ≤ length xs → length (take n xs) ≡ n
length-take zero xs h = refl
length-take (suc n) [] h = absurd (omega arith)
length-take (suc n) (x ∷ xs) h = omega (arith, length-take n xs (omega arith))

pub length-drop : (n : ℕ) (xs : List ℕ) → length (drop n xs) ≡ length xs - n
length-drop zero xs = omega arith
length-drop (suc n) [] = omega arith
length-drop (suc n) (x ∷ xs) = omega (arith, length-drop n xs)

pub length-zeros : (n : ℕ) → length (zeros n) ≡ n
length-zeros zero = refl
length-zeros (suc n) = ap suc (length-zeros n)

-- A middle part is the slice at its place.
pub slice-middle :
    (xs ys zs : List ℕ) (i j : ℕ)
    → length xs ≡ i
    → i + length ys ≡ j
    → slice (xs ++ (ys ++ zs)) i j ≡ some ys
unfolding slice
slice-middle xs ys zs i j e f =
    let inside : (leb i j && leb j (length (xs ++ (ys ++ zs)))) ≡ true =
      ground (arith, length-append xs (ys ++ zs), length-append ys zs) in
    let size : j - i ≡ length ys = omega arith in
    rw (inside, size, sym e, drop-append xs (ys ++ zs), take-append ys zs) refl

get-put_uint32 : (n : ℕ) → n < 2 ^ 32 → get_uint32 (put_uint32 n) ≡ some n
unfolding get_uint32 put_uint32
get-put_uint32 n h = ap some (omega arith)

pub length-put_uint32 : (n : ℕ) → length (put_uint32 n) ≡ 4
unfolding put_uint32
length-put_uint32 n = refl

uint32_at-put :
    (xs rest : List ℕ) (n i : ℕ)
    → length xs ≡ i
    → n < 2 ^ 32
    → uint32_at (xs ++ (put_uint32 n ++ rest)) i ≡ some n
unfolding uint32_at
uint32_at-put xs rest n i e h =
    rw (slice-middle xs (put_uint32 n) rest i (i + 4) e (omega (arith, length-put_uint32 n)))
      (get-put_uint32 n h)

pub align4-bounds : (n : ℕ) → (n ≤ align4 n) × (align4 n ≤ n + 3)
unfolding align4
align4-bounds n = ground arith

-- A 32-bit number that was written is read.
pub read-write_pickle_uint32 :
    (n : ℕ) → n < 2 ^ 32 → read_pickle_uint32 (write_pickle_uint32 n) ≡ some (ok n)
unfolding read_pickle_uint32 write_pickle_uint32
read-write_pickle_uint32 n h =
    let size : length (put_uint32 4 ++ put_uint32 n) ≡ 8 = unfold put_uint32 in refl in
    let second : uint32_at (put_uint32 4 ++ put_uint32 n) 4 ≡ some n =
      subst (λ l. uint32_at (put_uint32 4 ++ l) 4 ≡ some n) (append-nil (put_uint32 n))
        (uint32_at-put (put_uint32 4) [] n 4 (length-put_uint32 4) h) in
    rw (size, uint32_at-put [] (put_uint32 n) 4 0 refl (omega arith), second) refl

-- Each test of the reader, on a buffer whose parts are known.
read_parts :
    (buffer s : List ℕ) (p n : ℕ)
    → ltb (length buffer) 8 ≡ false
    → uint32_at buffer 0 ≡ some p
    → bad_payload p buffer ≡ false
    → uint32_at buffer 4 ≡ some n
    → (ltb (p - 4) n || ltb (length buffer) (8 + n)) ≡ false
    → slice buffer 8 (8 + n) ≡ some s
    → read_pickle_string buffer ≡ some (ok s)
unfolding read_pickle_string cut_string
read_parts buffer s p n long first good second inside cut =
    rw (long, first, good, second, inside, cut) refl

read_padded :
    (s pad : List ℕ) (p : ℕ)
    → length s + 4 + length pad ≡ p
    → p < 2 ^ 32
    → read_pickle_string (put_uint32 p ++ (put_uint32 (length s) ++ (s ++ pad))) ≡ some (ok s)
read_padded s pad p e h =
    let buffer = put_uint32 p ++ (put_uint32 (length s) ++ (s ++ pad)) in
    let long : length buffer ≡ p + 4 = omega (
      arith,
      length-append (put_uint32 p) (put_uint32 (length s) ++ (s ++ pad)),
      length-append (put_uint32 (length s)) (s ++ pad),
      length-append s pad,
      length-put_uint32 p,
      length-put_uint32 (length s),
    ) in
    read_parts buffer s p (length s) (ground (arith, long))
      (uint32_at-put [] (put_uint32 (length s) ++ (s ++ pad)) p 0 refl h) (ground (arith, long))
      (uint32_at-put (put_uint32 p) (s ++ pad) (length s) 4 (length-put_uint32 p) (omega arith))
      (ground (arith, long))
      (subst (λ l. slice l 8 (8 + length s) ≡ some s)
        (append_assoc (put_uint32 p) (put_uint32 (length s)) (s ++ pad))
        (slice-middle (put_uint32 p ++ put_uint32 (length s)) s pad 8 (8 + length s)
          (omega (
            arith,
            length-append (put_uint32 p) (put_uint32 (length s)),
            length-put_uint32 p,
            length-put_uint32 (length s),
          ))
          refl))

-- A string shorter than 2^32 - 7 bytes is read as it was written.
pub read-write_pickle_string :
    (s : List ℕ) → length s + 7 < 2 ^ 32 → read_pickle_string (write_pickle_string s) ≡ some (ok s)
unfolding write_pickle_string
read-write_pickle_string s h =
    let p = align4 (4 + length s) in
    read_padded s (zeros (p - 4 - length s)) p
      (omega (arith, align4-bounds (4 + length s), length-zeros (p - 4 - length s)))
      (omega (arith, align4-bounds (4 + length s)))

get_uint32-some : (l : List ℕ) → length l ≡ 4 → (n : ℕ) × (get_uint32 l ≡ some n)
unfolding get_uint32
get_uint32-some [] e = absurd (omega arith)
get_uint32-some (a ∷ []) e = absurd (omega arith)
get_uint32-some (a ∷ b ∷ []) e = absurd (omega arith)
get_uint32-some (a ∷ b ∷ c ∷ []) e = absurd (omega arith)
get_uint32-some (a ∷ b ∷ c ∷ d ∷ rest) e = (_, refl)

-- A slice within the buffer.
slice-some :
    (buffer : List ℕ) (i j : ℕ)
    → i ≤ j
    → j ≤ length buffer
    → (s : List ℕ) × (slice buffer i j ≡ some s) × (length s ≡ j - i)
unfolding slice
slice-some buffer i j h k =
    let inside : (leb i j && leb j (length buffer)) ≡ true = ground arith in
    (
      take (j - i) (drop i buffer),
      rw inside refl,
      length-take (j - i) (drop i buffer) (omega (arith, length-drop i buffer)),
    )

uint32_at-some :
    (buffer : List ℕ) (i : ℕ) → i + 4 ≤ length buffer → (n : ℕ) × (uint32_at buffer i ≡ some n)
unfolding uint32_at
uint32_at-some buffer i h =
    let (s, e, size) = slice-some buffer i (i + 4) (omega arith) h in
    let (n, f) = get_uint32-some s (omega (arith, size)) in (n, rw (e, f) refl)

-- What was read fits in the buffer behind its two sizes.
abbrev pub ReadFits : List ℕ → Outcome PickleError (List ℕ) → Type 0
ReadFits buffer (err e) = Unit
ReadFits buffer (ok s) = length s + 8 ≤ length buffer

-- An answer, with a string that fits the buffer.
record IsSafe (buffer : List ℕ) (o : Option (Outcome PickleError (List ℕ))) : Type 0 where
  answer : Outcome PickleError (List ℕ)
  answers : o ≡ some answer
  fits : ReadFits buffer answer

refused : (buffer : List ℕ) (e : PickleError) → IsSafe buffer (some (err e))
refused buffer e = record { answer = err e; answers = refl; fits = tt }

cut_string-IsSafe : (p n : ℕ) (buffer : List ℕ) → IsSafe buffer (cut_string p n buffer)
unfolding cut_string
cut_string-IsSafe p n buffer =
    if-elim (IsSafe buffer) (ltb (p - 4) n || ltb (length buffer) (8 + n))
      (λ _. refused buffer pickle_string)
      (λ inside.
        let (s, e, size) = slice-some buffer 8 (8 + n) (omega arith) (ground (arith, inside)) in
        record { answer = ok s; answers = rw e refl; fits = ground (arith, inside, size) })

read_pickle_string-IsSafe : (buffer : List ℕ) → IsSafe buffer (read_pickle_string buffer)
unfolding read_pickle_string
read_pickle_string-IsSafe buffer =
    if-elim (IsSafe buffer) (ltb (length buffer) 8) (λ _. refused buffer pickle)
      (λ long.
        let (p, e) = uint32_at-some buffer 0 (ground (arith, long)) in
        let (n, f) = uint32_at-some buffer 4 (ground (arith, long)) in
        rw (e, f)
          (if-elim (IsSafe buffer) (bad_payload p buffer) (λ _. refused buffer pickle_payload)
            (λ _. cut_string-IsSafe p n buffer)))

-- Reading a string never slices out of range, whatever the bytes are, and what is read fits in the
-- buffer behind its two sizes.
pub read_pickle_string-bounds :
    (buffer : List ℕ)
    → (r : Outcome PickleError (List ℕ)) × (read_pickle_string buffer ≡ some r) × ReadFits buffer r
read_pickle_string-bounds buffer =
    let safe = read_pickle_string-IsSafe buffer in (safe.answer, safe.answers, safe.fits)

pub length-write_pickle_uint32 : (n : ℕ) → length (write_pickle_uint32 n) ≡ 8
unfolding write_pickle_uint32 put_uint32
length-write_pickle_uint32 n = refl

-- A string's pickle takes at least 8 bytes and at most 11 more than the string.
pub write_pickle_string-bounds :
    (s : List ℕ)
    → (8 ≤ length (write_pickle_string s)) × (length (write_pickle_string s) ≤ length s + 11)
unfolding write_pickle_string
write_pickle_string-bounds s =
    let p = align4 (4 + length s) in
    omega (
      arith,
      align4-bounds (4 + length s),
      length-put_uint32 p,
      length-put_uint32 (length s),
      length-zeros (p - 4 - length s),
      length-append (put_uint32 p) (put_uint32 (length s) ++ (s ++ zeros (p - 4 - length s))),
      length-append (put_uint32 (length s)) (s ++ zeros (p - 4 - length s)),
      length-append s (zeros (p - 4 - length s)),
    )
