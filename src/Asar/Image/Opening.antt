-- ===== src/Asar/Image/Opening.antt =====
-- What `Open` and `ReadAt` of internal/asar/archive.go find in the bytes of an archive.
use golectron.Prelude.{
  take-append, drop-append, ℕ, ◌+◌, ◌-◌, ◌^◌, ◌<◌, ◌≡◌, refl, ap, ◌∙◌, subst, false, ◌||◌, some,
  List, ◌++◌, append-nil, ok, length, length-append, take, drop, ltb, ◌==◌, arith,
}
use golectron.Asar.Pickle.{
  write_pickle_uint32, write_pickle_string, read_pickle_uint32, read_pickle_string,
}
use golectron.Asar.Pickle.RoundTrip.{
  length-write_pickle_uint32, write_pickle_string-bounds, read-write_pickle_uint32,
  read-write_pickle_string,
}
use golectron.Asar.Image.{image, open_image, read_at}

-- The first parts of a text of known length.
take_front : (xs ys : List ℕ) (n : ℕ) → length xs ≡ n → take n (xs ++ ys) ≡ xs
take_front xs ys n e = subst (λ k. take k (xs ++ ys) ≡ xs) e (take-append xs ys)

drop_front : (xs ys : List ℕ) (n : ℕ) → length xs ≡ n → drop n (xs ++ ys) ≡ ys
drop_front xs ys n e = subst (λ k. drop k (xs ++ ys) ≡ ys) e (drop-append xs ys)

-- What stands in the middle of a file is read there.
pub read_at-middle :
    (xs ys zs : List ℕ) (offset : ℕ)
    → length xs ≡ offset
    → read_at (xs ++ (ys ++ zs)) offset (length ys) ≡ ys
unfolding read_at
read_at-middle xs ys zs offset e =
    let found : take (length ys) (drop offset (xs ++ (ys ++ zs))) ≡ ys =
      ap (take (length ys)) (drop_front xs (ys ++ zs) offset e) ∙ take-append ys zs in
    let none_left : length ys - length ys ≡ 0 = omega arith in rw (found, none_left) (append-nil ys)

open_parts :
    (bytes header : List ℕ) (size : ℕ)
    → ltb (length bytes) 8 ≡ false
    → read_pickle_uint32 (take 8 bytes) ≡ some (ok size)
    → (size == 0 || ltb (length bytes - 8) size) ≡ false
    → read_pickle_string (take size (drop 8 bytes)) ≡ some (ok header)
    → open_image bytes ≡ some (ok (header, 8 + size))
unfolding open_image
open_parts bytes header size long first good second = rw (long, first, good, second) refl

-- An archive that was written opens with its header, and its contents begin behind it, where the
-- header is shorter than 2^32 - 11 bytes.
pub open_image-image :
    (header content : List ℕ)
    → length header + 11 < 2 ^ 32
    → open_image (image header content)
      ≡ some (ok (header, 8 + length (write_pickle_string header)))
unfolding image
open_image-image header content h =
    let pickle = write_pickle_string header in
    let front = write_pickle_uint32 (length pickle) in
    let bytes = front ++ (pickle ++ content) in
    let size : length bytes ≡ 8 + length pickle + length content = omega (
      arith,
      length-append front (pickle ++ content),
      length-append pickle content,
      length-write_pickle_uint32 (length pickle),
    ) in
    let small = write_pickle_string-bounds header in
    open_parts bytes header (length pickle) (ground (arith, size))
      (ap read_pickle_uint32
          (take_front front (pickle ++ content) 8 (length-write_pickle_uint32 (length pickle)))
        ∙ read-write_pickle_uint32 (length pickle) (omega (arith, small)))
      (ground (arith, size, small))
      (ap (λ l. read_pickle_string (take (length pickle) l))
          (drop_front front (pickle ++ content) 8 (length-write_pickle_uint32 (length pickle)))
        ∙ ap read_pickle_string (take-append pickle content)
        ∙ read-write_pickle_string header (omega arith))
