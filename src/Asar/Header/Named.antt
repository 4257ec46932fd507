-- ===== src/Asar/Header/Named.antt =====
-- The files of internal/asar/archive.go in a header, by their names.
use golectron.Prelude.{
  ◌≡◌, refl, sym, ap, ◌∙◌, Bool, true, false, ◌∷◌, ℕ, ◌==◌, if-elim, Option, some, Bool-cases, List,
  [], inl, inr,
}
use golectron.Text.{Text, split, push_head}
use golectron.FilePath.{slash}
use golectron.Asar.Paths.{AsarError, header_entry_path, outside, normalize_inner_path}
use golectron.Asar.Header.{
  WriteNode, WriteFields, Added, added, refused, add_parts, add_header_write_file,
}
use golectron.Asar.Header.Losses.{find_parts, find_parts-add_parts}
use golectron.Asar.Header.Kept.{IsFile, is_start, find_parts_kept}

-- The names on the way to a file.
abbrev pub parts_of : Text → List Text
parts_of name = split (normalize_inner_path name) slash

-- The node at a name.
abbrev pub find_at : Text → WriteFields → Option WriteNode
find_at name fields = find_parts (parts_of name) fields

-- The first names are the start of the second, or all of them.
unfoldable pub is_within : List Text → List Text → Bool
is_within [] ps = true
is_within (q ∷ qs) [] = false
is_within (q ∷ qs) (p ∷ ps) = is_start q qs p ps

-- The first name leads neither to the file of the second nor to a folder on the way to it.
abbrev pub Spares : Text → Text → Type 0
Spares other name = is_within (parts_of other) (parts_of name) ≡ false

-- A split text has a first part.
abbrev Parted : List Text → Type 0
Parted parts = (p : Text) × (ps : List Text) × (parts ≡ p ∷ ps)

push_head-Parted : (c : ℕ) (parts : List Text) → Parted (push_head c parts)
push_head-Parted c [] = (_, _, refl)
push_head-Parted c (p ∷ ps) = (_, _, refl)

split-Parted : (s : Text) (sep : ℕ) → Parted (split s sep)
unfolding split
split-Parted [] sep = ([], [], refl)
split-Parted (c ∷ s) sep =
    if-elim Parted (c == sep) (λ _. ([], split s sep, refl)) (λ _. push_head-Parted c (split s sep))

pub parts_of-Parted : (name : Text) → (p : Text) × (ps : List Text) × (parts_of name ≡ p ∷ ps)
parts_of-Parted name = split-Parted (normalize_inner_path name) slash

-- What `addHeaderWriteFile` adds, it adds at the parts of the name.
record AddsAt (name : Text) (node : WriteNode) (fields more : WriteFields) : Type 0 where
  part : Text
  rest : List Text
  parts : parts_of name ≡ part ∷ rest
  adds : add_parts part rest node (some fields) ≡ added more

refused_added : {e : AsarError} {f : WriteFields} → Path Added (refused e) (added f) → ⊥
refused_added e = cc e

added_outside :
    (name : Text) (node : WriteNode) (fields : WriteFields)
    → outside (normalize_inner_path name) ≡ true
    → add_header_write_file name node fields ≡ refused header_entry_path
unfolding add_header_write_file
added_outside name node fields h = rw (h) refl

added_inside :
    (name part : Text) (rest : List Text) (node : WriteNode) (fields : WriteFields)
    → outside (normalize_inner_path name) ≡ false
    → parts_of name ≡ part ∷ rest
    → add_header_write_file name node fields ≡ add_parts part rest node (some fields)
unfolding add_header_write_file
added_inside name part rest node fields h e = rw (h, e) refl

add_header_write_file-AddsAt :
    (name : Text) (node : WriteNode) (fields more : WriteFields)
    → add_header_write_file name node fields ≡ added more
    → AddsAt name node fields more
add_header_write_file-AddsAt name node fields more e =
    let (part, rest, parts) = split-Parted (normalize_inner_path name) slash in
    elim (Bool-cases (outside (normalize_inner_path name))) [
      | inl h ↦ absurd (refused_added (sym (added_outside name node fields h) ∙ e))
      | inr h ↦ record {
        part = part;
        rest = rest;
        parts = parts;
        adds = sym (added_inside name part rest node fields h parts) ∙ e;
      }
    ]

-- A file that is added stands at its name.
pub find_at-add_header_write_file :
    (name : Text) (node : WriteNode) (fields more : WriteFields)
    → add_header_write_file name node fields ≡ added more
    → find_at name more ≡ some node
find_at-add_header_write_file name node fields more e =
    let a = add_header_write_file-AddsAt name node fields more e in
    ap (λ parts. find_parts parts more) a.parts
    ∙ find_parts-add_parts a.part a.rest node (some fields) more a.adds

-- It stands there after another is added whose name spares it.
pub find_at_kept :
    (name other : Text) (node added_node : WriteNode) (fields more : WriteFields)
    → find_at name fields ≡ some node
    → IsFile node
    → Spares other name
    → add_header_write_file other added_node fields ≡ added more
    → find_at name more ≡ some node
unfolding is_within
find_at_kept name other node added_node fields more h f apart e =
    let a = add_header_write_file-AddsAt other added_node fields more e in
    let (p, ps, parts) = split-Parted (normalize_inner_path name) slash in
    let spared : is_within (a.part ∷ a.rest) (p ∷ ps) ≡ false =
      sym (ap (λ l. is_within l (p ∷ ps)) a.parts)
      ∙ sym (ap (is_within (parts_of other)) parts)
      ∙ apart in
    ap (λ l. find_parts l more) parts
    ∙ find_parts_kept p ps a.part a.rest node added_node fields more
        (sym (ap (λ l. find_parts l fields) parts) ∙ h) f spared a.adds
