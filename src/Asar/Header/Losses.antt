-- ===== src/Asar/Header/Losses.antt =====
-- What a file that is added to a header of internal/asar/archive.go leaves there.
use golectron.Prelude.{
  ◌≡◌, refl, sym, ap, ◌∙◌, Option, none, some, Bool-cases, Option-cases, List, [], ◌∷◌, err, inl,
  inr, if-elim,
}
use golectron.Text.{Text, text_eq, text_eq_refl}
use golectron.Asar.Paths.{AsarError, header_entry_name, header_files}
use golectron.Asar.Header.{
  WriteNode, file, folder, WriteFields, end, field, lookup, put_field, bad_name, Added, added,
  refused, panics, in_folder, add_parts, assign, after_assign, files_of, node_at, decoded,
  parse_header_entries,
}

abbrev pub in_node : (WriteFields → Option WriteNode) → Option WriteNode → Option WriteNode
in_node f none = none
in_node f (some (file offset size unpacked)) = none
in_node f (some (folder inner)) = f inner

-- The node at a path.
unfoldable pub find_parts : List Text → WriteFields → Option WriteNode
find_parts [] fields = none
find_parts (part ∷ []) fields = lookup part fields
find_parts (part ∷ next ∷ rest) fields = in_node (find_parts (next ∷ rest)) (lookup part fields)

pub lookup-put_field :
    (name : Text) (node : WriteNode) (fields : WriteFields)
    → lookup name (put_field name node fields) ≡ some node
unfolding lookup put_field
lookup-put_field name node end = rw (text_eq_refl name) refl
lookup-put_field name node (field n old rest) = elim (Bool-cases (text_eq n name)) [
  | inl e ↦ rw (e, e) refl
  | inr e ↦ rw (e, e) (lookup-put_field name node rest)
]

-- What adding came to, with the node in its place if it succeeded.
record IsAdded (parts : List Text) (node : WriteNode) (r : Added) : Type 0 where
  found : (fields : WriteFields) → r ≡ added fields → find_parts parts fields ≡ some node

is_refused : (parts : List Text) (node : WriteNode) (e : AsarError) → IsAdded parts node (refused e)
is_refused parts node e = record { found = λ f eq. cc eq }

is_panic : (parts : List Text) (node : WriteNode) → IsAdded parts node panics
is_panic parts node = record { found = λ f eq. cc eq }

pub same_fields : {f g : WriteFields} → Path Added (added f) (added g) → f ≡ g
same_fields e = cc e

assign-IsAdded :
    (part : Text) (node : WriteNode) (files : Option WriteFields)
    → IsAdded (part ∷ []) node (assign part node files)
unfolding find_parts
assign-IsAdded part node none = is_panic _ node
assign-IsAdded part node (some fields) = record {
  found = λ f eq. ap (lookup part) (sym (same_fields eq)) ∙ lookup-put_field part node fields;
}

in_folder-IsAdded :
    (part next : Text) (rest : List Text) (node : WriteNode) (files : Option WriteFields)
    (r : Added)
    → IsAdded (next ∷ rest) node r
    → IsAdded (part ∷ next ∷ rest) node (in_folder part files r)
unfolding find_parts
in_folder-IsAdded part next rest node none (added inner) h = is_panic _ node
in_folder-IsAdded part next rest node (some fields) (added inner) h = record {
  found = λ f eq.
      ap (λ g. in_node (find_parts (next ∷ rest)) (lookup part g)) (sym (same_fields eq))
      ∙ ap (in_node (find_parts (next ∷ rest))) (lookup-put_field part (folder inner) fields)
      ∙ h.found inner refl;
}
in_folder-IsAdded part next rest node files (refused e) h = is_refused _ node e
in_folder-IsAdded part next rest node files panics h = is_panic _ node

made-IsAdded :
    (part next : Text) (rest : List Text) (node : WriteNode) (files : Option WriteFields)
    (r : Added)
    → IsAdded (next ∷ rest) node r
    → IsAdded
        (part ∷ next ∷ rest)
        node
        (after_assign (assign part (folder end) files) (λ made. in_folder part (some made) r))
made-IsAdded part next rest node none r h = is_panic _ node
made-IsAdded part next rest node (some fields) r h =
    in_folder-IsAdded part next rest node (some (put_field part (folder end) fields)) r h

add_parts-IsAdded :
    (part : Text) (rest : List Text) (node : WriteNode) (files : Option WriteFields)
    → IsAdded (part ∷ rest) node (add_parts part rest node files)
unfolding add_parts
add_parts-IsAdded part [] node files =
    if-elim (IsAdded (part ∷ []) node) (bad_name part) (λ _. is_refused _ node header_entry_name)
      (λ _. assign-IsAdded part node files)
add_parts-IsAdded part (next ∷ rest) node files = elim (Bool-cases (bad_name part)) [
  | inl b ↦ rw (b, add_parts) (is_refused _ node header_entry_name)
  | inr b ↦ elim (Option-cases (node_at part files)) [
    | inl e ↦
        rw (b, e, add_parts)
          (made-IsAdded part next rest node files _ (add_parts-IsAdded next rest node (some end)))
    | inr (child, e) ↦
        rw (b, e, add_parts)
          (in_folder-IsAdded part next rest node files _
            (add_parts-IsAdded next rest node (files_of child)))
  ]
]

-- A file that `addHeaderWriteFile` adds at some names stands there.
pub find_parts-add_parts :
    (part : Text) (rest : List Text) (node : WriteNode) (files : Option WriteFields)
    (more : WriteFields)
    → add_parts part rest node files ≡ added more
    → find_parts (part ∷ rest) more ≡ some node
find_parts-add_parts part rest node files more e =
    (add_parts-IsAdded part rest node files).found more e

-- The header of an archive of no files is refused.
empty_archive_refused : parse_header_entries (decoded (folder end)) ≡ err header_files
unfolding parse_header_entries decoded
empty_archive_refused = refl
