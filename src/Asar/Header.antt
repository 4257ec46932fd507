-- ===== src/Asar/Header.antt =====
-- The header of internal/asar/archive.go: the tree that `Write` builds and the entries that `Open`
-- reads from one. A map is the list of its fields, in the order in which Go ranges over it.
pub mod Losses
pub mod Descents
pub mod Kept
pub mod Empties
pub mod Named
use golectron.Prelude.{
  ℕ, ℤ, pos, negsuc, is_negative, Bool, true, false, not, ◌&&◌, ◌||◌, Option, none, some, List, [],
  ◌∷◌, ◌++◌, Outcome, ok, err, ◌==◌, if◌then◌else◌,
}
use golectron.Text.{Text, codes, text_eq, is_empty, contains_any, split}
use golectron.FilePath.{slash, is_dot, is_dot_dot, join_elements}
use golectron.Asar.Paths.{
  AsarError, header_entry_path, header_entry_name, header_entry_size, header_entry_offset,
  header_files, Entry, outside, normalize_inner_path,
}

-- `headerWriteNode`: a file, whose `Files` is nil, or a folder.
mutual
  pub data WriteNode : Type 0 where
    file : (offset : Option ℕ) → (size : ℕ) → (unpacked : Bool) → WriteNode
    folder : WriteFields → WriteNode

  pub data WriteFields : Type 0 where
    end : WriteFields
    field : Text → WriteNode → WriteFields → WriteFields

-- `headerEntry`, as it is decoded; an offset is missing, a decimal number, or neither.
pub data Offset : Type 0 where
  missing malformed : Offset
  number : ℤ → Offset

mutual
  pub data HeaderEntry : Type 0 where
    header_file : Offset → Option ℤ → Option ℕ → Bool → HeaderEntry
    header_folder : HeaderFields → HeaderEntry

  pub data HeaderFields : Type 0 where
    stop : HeaderFields
    entry : Text → HeaderEntry → HeaderFields → HeaderFields

unfoldable pub lookup : Text → WriteFields → Option WriteNode
lookup name end = none
lookup name (field n node rest) =
    let later = lookup name rest in if text_eq n name then some node else later

-- `m[name] = node`
unfoldable pub put_field : Text → WriteNode → WriteFields → WriteFields
put_field name node end = field name node end
put_field name node (field n old rest) =
    let later = put_field name node rest in
    if text_eq n name then field n node rest else field n old later

abbrev pub bad_name : Text → Bool
bad_name part = is_empty part || is_dot part || is_dot_dot part || contains_any part (codes "/\\")

-- What comes of adding a file: an error, or a panic, where the code assigns to a map that is nil.
pub data Added : Type 0 where
  added : WriteFields → Added
  refused : AsarError → Added
  panics : Added

-- `node.Files`: the map of a folder, nil for a file.
abbrev pub files_of : WriteNode → Option WriteFields
files_of (file offset size unpacked) = none
files_of (folder fields) = some fields

-- `files[name]`, where a nil map has nothing.
abbrev pub node_at : Text → Option WriteFields → Option WriteNode
node_at name none = none
node_at name (some fields) = lookup name fields

-- `files[name] = node`, which panics where the map is nil.
abbrev pub assign : Text → WriteNode → Option WriteFields → Added
assign name node none = panics
assign name node (some fields) = added (put_field name node fields)

abbrev pub after_assign : Added → (WriteFields → Added) → Added
after_assign (added fields) k = k fields
after_assign (refused e) k = refused e
after_assign panics k = panics

-- The folder at a name, once the rest of the loop has changed its map.
abbrev pub in_folder : Text → Option WriteFields → Added → Added
in_folder part files (added inner) = assign part (folder inner) files
in_folder part files (refused e) = refused e
in_folder part files panics = panics

-- The loop of `addHeaderWriteFile` from a part on, at a node with the given map.
unfoldable pub add_parts : Text → List Text → WriteNode → Option WriteFields → Added
add_parts part [] node files =
    if bad_name part then refused header_entry_name else assign part node files
add_parts part (next ∷ rest) node files =
    let in_new = add_parts next rest node (some end) in
    if bad_name part then refused header_entry_name else elim (node_at part files) [
      | none ↦
          after_assign (assign part (folder end) files) (λ made. in_folder part (some made) in_new)
      | some child ↦ in_folder part files (add_parts next rest node (files_of child))
    ]

-- `addHeaderWriteFile`, at the map of the root
unfoldable pub add_header_write_file : Text → WriteNode → WriteFields → Added
add_header_write_file name node fields =
    let normalized = normalize_inner_path name in
    if outside normalized then refused header_entry_path else elim (split normalized slash) [
      | [] ↦ added fields
      | part ∷ rest ↦ add_parts part rest node (some fields)
    ]

-- What a decoder finds of a node that was encoded: `omitempty` leaves out an empty map, an empty
-- offset and a size of 0.
abbrev offset_of : Option ℕ → Offset
offset_of none = missing
offset_of (some n) = number (pos n)

mutual
  pub decoded : WriteNode → HeaderEntry
  decoded (file offset size unpacked) =
      header_file (offset_of offset) (if size == 0 then none else some (pos size)) none unpacked
  decoded (folder end) = header_file missing none none false
  decoded (folder (field n node rest)) = header_folder (decoded_fields (field n node rest))

  pub decoded_fields : WriteFields → HeaderFields
  decoded_fields end = stop
  decoded_fields (field n node rest) = entry n (decoded node) (decoded_fields rest)

abbrev mode_of : Option ℕ → ℕ
mode_of none = 0
mode_of (some m) = m

-- The entry of a file, in `appendHeaderEntry`.
unfoldable pub file_entry : Text → Offset → Option ℤ → Option ℕ → Bool → Outcome AsarError Entry
file_entry path offset none mode unpacked = err header_entry_size
file_entry path offset (some size) mode true = ok (record {
  path = path;
  offset = pos 0;
  size = size;
  mode = mode_of mode;
  dir = false;
  unpacked = true;
})
file_entry path missing (some size) mode false = err header_entry_offset
file_entry path malformed (some size) mode false = err header_entry_offset
file_entry path (number n) (some size) mode false =
    if is_negative n
    then err header_entry_offset
    else ok (record {
      path = path;
      offset = n;
      size = size;
      mode = mode_of mode;
      dir = false;
      unpacked = false;
    })

abbrev folder_entry : Text → Entry
folder_entry path = record {
  path = path;
  offset = pos 0;
  size = pos 0;
  mode = 0;
  dir = true;
  unpacked = false;
}

-- `appendHeaderEntry`, with the entries so far.
mutual
  pub append_header_entry : Text → HeaderEntry → List Entry → Outcome AsarError (List Entry)
  append_header_entry path (header_file offset size mode unpacked) entries =
      let normalized = normalize_inner_path path in
      if is_empty normalized
      then err header_entry_path
      else elim (file_entry normalized offset size mode unpacked) [
        | err e ↦ err e
        | ok out ↦ ok (entries ++ out ∷ [])
      ]
  append_header_entry path (header_folder fields) entries =
      let normalized = normalize_inner_path path in
      let inside = append_fields normalized fields (entries ++ folder_entry normalized ∷ []) in
      if is_empty normalized then err header_entry_path else inside

  -- The loop over the map of a folder.
  pub append_fields : Text → HeaderFields → List Entry → Outcome AsarError (List Entry)
  append_fields path stop entries = ok entries
  append_fields path (entry name child rest) entries =
      let first = append_header_entry (join_elements (path ∷ name ∷ [])) child entries in
      if contains_any name (codes "/\\") || is_dot name || is_dot_dot name
      then err header_entry_name
      else elim first [ err e ↦ err e | ok more ↦ append_fields path rest more ]

-- The loop of `parseHeaderEntries` over the root's map.
pub root_entries : HeaderFields → List Entry → Outcome AsarError (List Entry)
root_entries stop entries = ok entries
root_entries (entry name child rest) entries = elim (append_header_entry name child entries) [
  | err e ↦ err e
  | ok more ↦ root_entries rest more
]

-- `parseHeaderEntries`, after decoding; a root without a map is a `header_file`.
pub parse_header_entries : HeaderEntry → Outcome AsarError (List Entry)
parse_header_entries (header_file offset size mode unpacked) = err header_files
parse_header_entries (header_folder fields) = root_entries fields []
