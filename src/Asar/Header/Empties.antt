-- ===== src/Asar/Header/Empties.antt =====
-- Empty files in a header of internal/asar/archive.go: what the loops that read the header make of a
-- file of size 0, whose size is left out of the encoded header.
use golectron.Prelude.{
  ◌≡◌, refl, sym, ap, ◌∙◌, subst, Bool, true, false, ◌||◌, ◌++◌, Option, none, some, Bool-cases,
  Outcome, err, Outcome-cases, List, [], ◌∷◌, inl, inr, ℕ,
}
use golectron.Text.{Text, text_eq, codes, contains_any, is_empty}
use golectron.FilePath.{is_dot, is_dot_dot, join_elements}
use golectron.Asar.Paths.{
  AsarError, Entry, header_entry_path, header_entry_size, header_entry_name, normalize_inner_path,
}
use golectron.Asar.Header.{
  WriteNode, file, folder, WriteFields, end, field, lookup, HeaderEntry, HeaderFields,
  header_folder, entry, decoded, decoded_fields, folder_entry, file_entry, append_header_entry,
  append_fields, root_entries, parse_header_entries,
}
use golectron.Asar.Header.Losses.{in_node, find_parts}
use golectron.Asar.Header.Kept.{find_parts-elsewhere}

-- Reading ends with an error.
abbrev pub IsRefused : {A : Type 0} → Outcome AsarError A → Type 0
IsRefused r = (e : AsarError) × (r ≡ err e)

-- The node at a path from a node on.
abbrev find_node : List Text → WriteNode → Option WriteNode
find_node [] node = some node
find_node (p ∷ ps) node = in_node (find_parts (p ∷ ps)) (some node)

find_parts-found :
    (p : Text) (ps : List Text) (node : WriteNode) (fields : WriteFields)
    → lookup p fields ≡ some node
    → find_parts (p ∷ ps) fields ≡ find_node ps node
unfolding find_parts
find_parts-found p [] node fields e = e
find_parts-found p (q ∷ ps) node fields e = ap (in_node (find_parts (q ∷ ps))) e

find_parts-end : (p : Text) (ps : List Text) → find_parts (p ∷ ps) end ≡ none
unfolding find_parts lookup
find_parts-end p [] = refl
find_parts-end p (q ∷ ps) = refl

lookup-here :
    (n p : Text) (node : WriteNode) (rest : WriteFields)
    → text_eq n p ≡ true
    → lookup p (field n node rest) ≡ some node
unfolding lookup
lookup-here n p node rest e = rw (e, lookup) refl

lookup-later :
    (n p : Text) (node : WriteNode) (rest : WriteFields)
    → text_eq n p ≡ false
    → lookup p (field n node rest) ≡ lookup p rest
unfolding lookup
lookup-later n p node rest e = rw (e, lookup) refl

none-some : {a : WriteNode} → Path (Option WriteNode) none (some a) → ⊥
none-some e = cc e

same_node : {a b : WriteNode} → Path (Option WriteNode) (some a) (some b) → a ≡ b
same_node e = cc e

-- A file without its size is refused.
leaf-IsRefused :
    (path : Text) (offset : Option ℕ) (unpacked : Bool) (entries : List Entry)
    → IsRefused (append_header_entry path (decoded (file offset 0 unpacked)) entries)
unfolding append_header_entry decoded file_entry
leaf-IsRefused path offset unpacked entries =
    elim (Bool-cases (is_empty (normalize_inner_path path))) [
      | inl e ↦ (header_entry_path, rw e refl)
      | inr e ↦ (header_entry_size, rw e refl)
    ]

append_first :
    (path name : Text) (child : HeaderEntry) (rest : HeaderFields) (entries : List Entry)
    → IsRefused (append_header_entry (join_elements (path ∷ name ∷ [])) child entries)
    → IsRefused (append_fields path (entry name child rest) entries)
unfolding append_fields
append_first path name child rest entries (x, h) =
    elim (Bool-cases (contains_any name (codes "/\\") || is_dot name || is_dot_dot name)) [
      | inl e ↦ (header_entry_name, rw (e, append_fields) refl)
      | inr e ↦ (x, rw (e, h, append_fields) refl)
    ]

append_later :
    (path name : Text) (child : HeaderEntry) (rest : HeaderFields) (entries : List Entry)
    → ((more : List Entry) → IsRefused (append_fields path rest more))
    → IsRefused (append_fields path (entry name child rest) entries)
unfolding append_fields
append_later path name child rest entries later =
    elim (Bool-cases (contains_any name (codes "/\\") || is_dot name || is_dot_dot name)) [
      | inl e ↦ (header_entry_name, rw (e, append_fields) refl)
      | inr e ↦
          elim (Outcome-cases
            (append_header_entry (join_elements (path ∷ name ∷ [])) child entries)) [
              | inr (x, h) ↦ (x, rw (e, h, append_fields) refl)
              | inl (more, h) ↦ let (x, l) = later more in (x, rw (e, h, append_fields) l)
            ]
    ]

append_folder :
    (path : Text) (fields : HeaderFields) (entries : List Entry)
    → ((inner : Text) (more : List Entry) → IsRefused (append_fields inner fields more))
    → IsRefused (append_header_entry path (header_folder fields) entries)
unfolding append_header_entry
append_folder path fields entries inside =
    let normalized = normalize_inner_path path in
    elim (Bool-cases (is_empty normalized)) [
      | inl e ↦ (header_entry_path, rw (e, append_header_entry) refl)
      | inr e ↦
          let (x, h) = inside normalized (entries ++ folder_entry normalized ∷ []) in
          (x, rw (e, append_header_entry) h)
    ]

mutual
  unfolding find_parts decoded decoded_fields

  fields-IsRefused :
      (p : Text) (ps : List Text) (fields : WriteFields) (offset : Option ℕ) (unpacked : Bool)
      (path : Text) (entries : List Entry)
      → find_parts (p ∷ ps) fields ≡ some (file offset 0 unpacked)
      → IsRefused (append_fields path (decoded_fields fields) entries)
  fields-IsRefused p ps end offset unpacked path entries h =
      absurd (none-some (sym (find_parts-end p ps) ∙ h))
  fields-IsRefused p ps (field n node rest) offset unpacked path entries h =
      elim (Bool-cases (text_eq n p)) [
        | inl e ↦ append_first path n (decoded node) (decoded_fields rest) entries (
            node-IsRefused ps node offset unpacked _ entries (
              sym (find_parts-found p ps node (field n node rest) (lookup-here n p node rest e))
              ∙ h))
        | inr e ↦ append_later path n (decoded node) (decoded_fields rest) entries λ more.
            fields-IsRefused p ps rest offset unpacked path more (
              sym
                (find_parts-elsewhere p ps rest (field n node rest) (lookup-later n p node rest e))
              ∙ h)
      ]

  node-IsRefused :
      (ps : List Text) (node : WriteNode) (offset : Option ℕ) (unpacked : Bool) (path : Text)
      (entries : List Entry)
      → find_node ps node ≡ some (file offset 0 unpacked)
      → IsRefused (append_header_entry path (decoded node) entries)
  node-IsRefused [] node offset unpacked path entries h =
      subst (λ x. IsRefused (append_header_entry path (decoded x) entries)) (sym (same_node h))
        (leaf-IsRefused path offset unpacked entries)
  node-IsRefused (q ∷ ps) (file o s u) offset unpacked path entries h = absurd (none-some h)
  node-IsRefused (q ∷ ps) (folder end) offset unpacked path entries h =
      absurd (none-some (sym (find_parts-end q ps) ∙ h))
  node-IsRefused (q ∷ ps) (folder (field n node rest)) offset unpacked path entries h =
      append_folder path (decoded_fields (field n node rest)) entries
        λ inner more. fields-IsRefused q ps (field n node rest) offset unpacked inner more h

root_first :
    (name : Text) (child : HeaderEntry) (rest : HeaderFields) (entries : List Entry)
    → IsRefused (append_header_entry name child entries)
    → IsRefused (root_entries (entry name child rest) entries)
unfolding root_entries
root_first name child rest entries (x, h) = (x, rw (h, root_entries) refl)

root_later :
    (name : Text) (child : HeaderEntry) (rest : HeaderFields) (entries : List Entry)
    → ((more : List Entry) → IsRefused (root_entries rest more))
    → IsRefused (root_entries (entry name child rest) entries)
unfolding root_entries
root_later name child rest entries later =
    elim (Outcome-cases (append_header_entry name child entries)) [
      | inr (x, h) ↦ (x, rw (h, root_entries) refl)
      | inl (more, h) ↦ let (x, l) = later more in (x, rw (h, root_entries) l)
    ]

root-IsRefused :
    (p : Text) (ps : List Text) (fields : WriteFields) (offset : Option ℕ) (unpacked : Bool)
    (entries : List Entry)
    → find_parts (p ∷ ps) fields ≡ some (file offset 0 unpacked)
    → IsRefused (root_entries (decoded_fields fields) entries)
unfolding decoded_fields
root-IsRefused p ps end offset unpacked entries h =
    absurd (none-some (sym (find_parts-end p ps) ∙ h))
root-IsRefused p ps (field n node rest) offset unpacked entries h =
    elim (Bool-cases (text_eq n p)) [
      | inl e ↦ root_first n (decoded node) (decoded_fields rest) entries (
          node-IsRefused ps node offset unpacked n entries (
            sym (find_parts-found p ps node (field n node rest) (lookup-here n p node rest e)) ∙ h))
      | inr e ↦ root_later n (decoded node) (decoded_fields rest) entries λ more.
          root-IsRefused p ps rest offset unpacked more (
            sym (find_parts-elsewhere p ps rest (field n node rest) (lookup-later n p node rest e))
            ∙ h)
    ]

-- A header with an empty file anywhere in its tree is refused as a whole.
pub parse_header_entries-IsRefused :
    (p : Text) (ps : List Text) (fields : WriteFields) (offset : Option ℕ) (unpacked : Bool)
    → find_parts (p ∷ ps) fields ≡ some (file offset 0 unpacked)
    → IsRefused (parse_header_entries (decoded (folder fields)))
unfolding parse_header_entries decoded
parse_header_entries-IsRefused p ps end offset unpacked h =
    absurd (none-some (sym (find_parts-end p ps) ∙ h))
parse_header_entries-IsRefused p ps (field n node rest) offset unpacked h =
    root-IsRefused p ps (field n node rest) offset unpacked [] h
