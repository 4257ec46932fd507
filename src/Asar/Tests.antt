-- ===== src/Asar/Tests.antt =====
-- Runs of internal/asar/archive.go, and the theorems at concrete archives.
use golectron.Prelude.{
  Option, err, ℕ, ◌+◌, ◌≡◌, refl, false, some, List, [], ◌∷◌, Outcome, ok, err, length, arith,
}
use golectron.Text.{
  codes, text_eq, is_space, trim_left, trim_right, trim_space, has_prefix, has_suffix, split, join,
}
use golectron.FilePath.{clean_elements, clean}
use golectron.Asar.Pickle.{PickleError, write_pickle_string, read_pickle_string}
use golectron.Asar.Pickle.RoundTrip.{ReadFits, read-write_pickle_string, read_pickle_string-bounds}
use golectron.Asar.Paths.{AsarError, normalize_inner_path, normalize_archive_path}
use golectron.Asar.Header.{
  WriteNode, file, folder, WriteFields, end, field, lookup, put_field, bad_name, added, panics,
  add_parts, add_header_write_file, HeaderEntry, decoded,
}
use golectron.Asar.Header.Losses.{find_parts}
use golectron.Asar.Header.Kept.{is_start, add_parts-below}
use golectron.Asar.Header.Named.{find_at, Spares, is_within}
use golectron.Asar.Image.{
  File, Built, written, pack_files, image, open_image, bad_header, open_archive,
}
use golectron.Asar.Image.RoundTrip.{IsPacked, read-pack_files}
use golectron.Asar.Image.Refused.{open_archive-empty_file}

read-write_pickle_string_example :
    read_pickle_string (write_pickle_string (7 ∷ [])) ≡ some (ok (7 ∷ []))
read-write_pickle_string_example = read-write_pickle_string (7 ∷ []) (omega arith)

abbrev junk : List ℕ
junk = 9 ∷ []

read_pickle_string-bounds_example :
    (r : Outcome PickleError (List ℕ)) × (read_pickle_string junk ≡ some r) × ReadFits junk r
read_pickle_string-bounds_example = read_pickle_string-bounds junk

abbrev leaf : WriteNode
leaf = file (some 0) 2 false

abbrev tree : WriteFields
tree = field (codes "lib") (folder (field (codes "a.js") leaf end)) end

tree_added : add_parts (codes "lib") (codes "a.js" ∷ []) leaf (some end) ≡ added tree
unfolding add_parts lookup put_field text_eq
tree_added = refl

good_b : bad_name (codes "b") ≡ false
unfolding text_eq
good_b = refl

add_parts-below_example :
    add_parts (codes "lib") (codes "a.js" ∷ codes "b" ∷ []) leaf (some tree) ≡ panics
add_parts-below_example =
    add_parts-below (codes "lib") (codes "a.js" ∷ []) (codes "b") [] leaf leaf end tree tree_added
      refl good_b

-- A coder for the one header of an archive with an empty file in a folder.
abbrev hollow : WriteFields
hollow = field (codes "lib") (folder (field (codes "a.js") (file (some 0) 0 false) end)) end

abbrev encode_hollow : WriteNode → List ℕ
encode_hollow node = 9 ∷ []

abbrev decode_hollow : List ℕ → Option HeaderEntry
decode_hollow header = some (decoded (folder hollow))

hollow_path : normalize_archive_path (codes "x.asar") ≡ ok (codes "x.asar")
unfolding normalize_archive_path clean clean_elements split join trim_space trim_left trim_right
    is_space has_prefix has_suffix text_eq
hollow_path = refl

hollow_found : find_at (codes "lib/a.js") hollow ≡ some (file (some 0) 0 false)
unfolding normalize_inner_path find_parts lookup clean clean_elements split join trim_space
    trim_left trim_right is_space has_prefix text_eq
hollow_found = refl

open_archive-empty_file_example :
    (e : AsarError) × (open_archive decode_hollow (codes "x.asar") (image (9 ∷ []) (7 ∷ []))
      ≡ some (err (bad_header e)))
open_archive-empty_file_example =
    open_archive-empty_file encode_hollow decode_hollow (codes "x.asar") (codes "x.asar")
      (codes "lib/a.js") hollow (7 ∷ []) (some 0) false refl hollow_path (omega arith) hollow_found

rooted : clean (trim_space (codes "/x.asar/a")) ≡ b'/' ∷ codes "x.asar/a"
unfolding clean clean_elements split join trim_space trim_left trim_right is_space has_prefix
    text_eq
rooted = refl

abbrev nothing : Built
nothing = record { fields = end; content = [] }

abbrev files : List File
files = (codes "a", 1 ∷ 2 ∷ []) ∷ (codes "b", 3 ∷ []) ∷ []

abbrev built : Built
built = record {
  fields =
      field (codes "a") (file (some 0) 2 false) (field (codes "b") (file (some 2) 1 false) end);
  content = 1 ∷ 2 ∷ 3 ∷ [];
}

files_built : pack_files files nothing ≡ written built
unfolding pack_files add_header_write_file add_parts put_field normalize_inner_path clean
    clean_elements split join trim_space trim_left trim_right is_space has_prefix text_eq
files_built = refl

b-Spares_a : Spares (codes "b") (codes "a")
unfolding is_within is_start normalize_inner_path clean clean_elements split join trim_space
    trim_left trim_right is_space has_prefix text_eq
b-Spares_a = refl

read-pack_files_example :
    (open_image (image (8 ∷ []) (1 ∷ 2 ∷ 3 ∷ []))
      ≡ some (ok (8 ∷ [], 8 + length (write_pickle_string (8 ∷ [])))))
    × IsPacked (codes "a") (1 ∷ 2 ∷ []) (8 ∷ []) built
read-pack_files_example =
    read-pack_files [] ((codes "b", 3 ∷ []) ∷ []) (codes "a") (1 ∷ 2 ∷ []) (8 ∷ []) nothing built
      (b-Spares_a, tt) files_built (omega arith)
