-- ===== src/Asar/Image/Refused.antt =====
-- The archives that `Write` of internal/asar/archive.go makes and `Open` refuses.
use golectron.Prelude.{
  ℕ, Bool, ◌≡◌, refl, sym, ap, ◌∙◌, ◌+◌, ◌<◌, ◌^◌, Option, some, List, ok, err, length,
}
use golectron.Text.{Text}
use golectron.Asar.Paths.{AsarError, normalize_archive_path}
use golectron.Asar.Header.{
  WriteNode, file, folder, WriteFields, HeaderEntry, decoded, parse_header_entries,
}
use golectron.Asar.Header.Losses.{find_parts}
use golectron.Asar.Header.Named.{parts_of-Parted, find_at}
use golectron.Asar.Header.Empties.{IsRefused, parse_header_entries-IsRefused}
use golectron.Asar.Image.{bad_header, image, open_image, archive_of, open_archive}
use golectron.Asar.Image.Opening.{open_image-image}

find_at-IsRefused :
    (name : Text) (fields : WriteFields) (offset : Option ℕ) (unpacked : Bool)
    → find_at name fields ≡ some (file offset 0 unpacked)
    → IsRefused (parse_header_entries (decoded (folder fields)))
find_at-IsRefused name fields offset unpacked h =
    let (p, ps, parts) = parts_of-Parted name in
    parse_header_entries-IsRefused p ps fields offset unpacked
      (sym (ap (λ l. find_parts l fields) parts) ∙ h)

archive_of_refused :
    (decode : List ℕ → Option HeaderEntry) (path : Text) (header : List ℕ) (base : ℕ)
    (root : HeaderEntry) (e : AsarError)
    → decode header ≡ some root
    → parse_header_entries root ≡ err e
    → archive_of decode path header base ≡ err (bad_header e)
archive_of_refused decode path header base root e d h = rw (d, h, archive_of) refl

open_archive_at :
    (decode : List ℕ → Option HeaderEntry) (raw path : Text) (bytes header : List ℕ) (base : ℕ)
    → normalize_archive_path raw ≡ ok path
    → open_image bytes ≡ some (ok (header, base))
    → open_archive decode raw bytes ≡ some (archive_of decode path header base)
unfolding open_archive
open_archive_at decode raw path bytes header base n o = rw (n, o, open_archive) refl

-- An empty file makes the whole archive unreadable: where the tree of a header has a file of size 0 at
-- some name, at any depth, `Open` refuses the archive with that header for an error in the header,
-- whatever else the tree has, given a good archive path, a header of fewer than 2^32 - 11 bytes, and a
-- decoder that gives back the encoded tree but for what `omitempty` leaves out.
pub open_archive-empty_file :
    (encode : WriteNode → List ℕ) (decode : List ℕ → Option HeaderEntry) (raw path name : Text)
    (fields : WriteFields) (content : List ℕ) (offset : Option ℕ) (unpacked : Bool)
    → decode (encode (folder fields)) ≡ some (decoded (folder fields))
    → normalize_archive_path raw ≡ ok path
    → length (encode (folder fields)) + 11 < 2 ^ 32
    → find_at name fields ≡ some (file offset 0 unpacked)
    → (e : AsarError) × (open_archive decode raw (image (encode (folder fields)) content)
        ≡ some (err (bad_header e)))
open_archive-empty_file encode decode raw path name fields content offset unpacked d n h found =
    let header = encode (folder fields) in
    let (e, refuses) = find_at-IsRefused name fields offset unpacked found in
    (
      e,
      open_archive_at decode raw path (image header content) header _ n
            (open_image-image header content h)
          ∙ ap some (archive_of_refused decode path header _ (decoded (folder fields)) e d refuses),
    )
