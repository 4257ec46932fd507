-- ===== src/Asar/Header/Descents.antt =====
-- What `addHeaderWriteFile` of internal/asar/archive.go has done to each folder on its way.
use golectron.Prelude.{
  ◌≡◌, ◌≢◌, ◌⊎◌, refl, sym, ap, ◌∙◌, subst, true, false, Option, none, some, Bool-cases,
  Option-cases, List, [], ◌∷◌, inl, inr,
}
use golectron.Text.{Text, text_eq, text_eq_iff}
use golectron.Asar.Paths.{AsarError, header_entry_name}
use golectron.Asar.Header.{
  WriteNode, file, folder, WriteFields, end, field, lookup, put_field, bad_name, Added, added,
  refused, panics, in_folder, add_parts, files_of,
}
use golectron.Asar.Header.Losses.{lookup-put_field, same_fields}

pub lookup-put_other :
    (name q : Text) (node : WriteNode) (fields : WriteFields)
    → text_eq name q ≡ false
    → lookup q (put_field name node fields) ≡ lookup q fields
unfolding lookup put_field
lookup-put_other name q node end h = rw h refl
lookup-put_other name q node (field n old rest) h = elim (Bool-cases (text_eq n name)) [
  | inl e ↦
      let other : text_eq n q ≡ false =
        subst (λ t. text_eq t q ≡ false) (sym ((text_eq_iff n name).0 e)) h in
      rw (e, other) refl
  | inr e ↦ rw (e, lookup-put_other name q node rest h) refl
]

-- The code does not add the file.
abbrev Fails : Added → Type 0
Fails r = (more : WriteFields) → r ≢ added more

refused-Fails : (e : AsarError) → Fails (refused e)
refused-Fails e more x = cc x

panics-Fails : Fails panics
panics-Fails more x = cc x

in_folder-Fails :
    (part : Text) (files : Option WriteFields) (r : Added)
    → Fails r
    → Fails (in_folder part files r)
in_folder-Fails part files (added inner) h more x = h inner refl
in_folder-Fails part files (refused e) h more x = cc x
in_folder-Fails part files panics h more x = cc x

-- Nothing is added below a file: its map is nil.
pub add_parts-nil :
    (part : Text) (rest : List Text) (node : WriteNode)
    → bad_name part ≡ false
    → add_parts part rest node none ≡ panics
unfolding add_parts
add_parts-nil part [] node h = rw (h, add_parts) refl
add_parts-nil part (next ∷ rest) node h = rw (h, add_parts) refl

add_parts-bad :
    (part : Text) (rest : List Text) (node : WriteNode) (files : Option WriteFields)
    → bad_name part ≡ true
    → add_parts part rest node files ≡ refused header_entry_name
unfolding add_parts
add_parts-bad part [] node files h = rw (h, add_parts) refl
add_parts-bad part (next ∷ rest) node files h = rw (h, add_parts) refl

pub add_parts_good :
    (part : Text) (rest : List Text) (node : WriteNode) (files : Option WriteFields)
    (more : WriteFields)
    → add_parts part rest node files ≡ added more
    → bad_name part ≡ false
add_parts_good part rest node files more e = elim (Bool-cases (bad_name part)) [
  | inl b ↦
      absurd (refused-Fails header_entry_name more (sym (add_parts-bad part rest node files b) ∙ e))
  | inr b ↦ b
]

add_parts-nil_Fails :
    (part : Text) (rest : List Text) (node : WriteNode) → Fails (add_parts part rest node none)
add_parts-nil_Fails part rest node more e =
    panics-Fails more
      (sym (add_parts-nil part rest node (add_parts_good part rest node none more e)) ∙ e)

pub add_parts_last :
    (part : Text) (node : WriteNode) (fields more : WriteFields)
    → add_parts part [] node (some fields) ≡ added more
    → more ≡ put_field part node fields
unfolding add_parts
add_parts_last part node fields more e =
    let good = add_parts_good part [] node (some fields) more e in
    let out : add_parts part [] node (some fields) ≡ added (put_field part node fields) =
      rw (good, add_parts) refl in
    same_fields (sym e ∙ out)

-- A file was added below a folder: what the folder had and has, the rest of the names being added
-- in it.
pub record Descends (part next : Text) (rest : List Text) (node : WriteNode)
    (fields more : WriteFields) : Type 0 where
  pub below : WriteFields
  pub inner : WriteFields
  pub was : (lookup part fields ≡ none) ⊎ (lookup part fields ≡ some (folder below))
  pub adds : add_parts next rest node (some below) ≡ added inner
  pub is_now : lookup part more ≡ some (folder inner)
  pub elsewhere : (q : Text) → text_eq part q ≡ false → lookup q more ≡ lookup q fields

in_folder_added :
    (part : Text) (fields more : WriteFields) (r : Added)
    → in_folder part (some fields) r ≡ added more
    → (inner : WriteFields) × (r ≡ added inner) × (more ≡ put_field part (folder inner) fields)
in_folder_added part fields more (added inner) e = (inner, refl, same_fields (sym e))
in_folder_added part fields more (refused x) e = absurd (refused-Fails x more e)
in_folder_added part fields more panics e = absurd (panics-Fails more e)

in_new_folder :
    (part next : Text) (rest : List Text) (node : WriteNode) (fields more : WriteFields)
    → lookup part fields ≡ none
    → in_folder part
        (some (put_field part (folder end) fields))
        (add_parts next rest node (some end))
      ≡ added more
    → Descends part next rest node fields more
in_new_folder part next rest node fields more h e =
    let made = put_field part (folder end) fields in
    let (inner, adds, same) =
      in_folder_added part made more (add_parts next rest node (some end)) e in
    record {
      below = end;
      inner = inner;
      was = inl h;
      adds = adds;
      is_now = ap (lookup part) same ∙ lookup-put_field part (folder inner) made;
      elsewhere = λ q other.
          ap (lookup q) same
          ∙ lookup-put_other part q (folder inner) made other
          ∙ lookup-put_other part q (folder end) fields other;
    }

in_old_folder :
    (part next : Text) (rest : List Text) (node child : WriteNode) (fields more : WriteFields)
    → lookup part fields ≡ some child
    → in_folder part (some fields) (add_parts next rest node (files_of child)) ≡ added more
    → Descends part next rest node fields more
in_old_folder part next rest node (file o s u) fields more h e = absurd (
    in_folder-Fails part (some fields) (add_parts next rest node none)
      (add_parts-nil_Fails next rest node) more e)
in_old_folder part next rest node (folder below) fields more h e =
    let (inner, adds, same) =
      in_folder_added part fields more (add_parts next rest node (some below)) e in
    record {
      below = below;
      inner = inner;
      was = inr h;
      adds = adds;
      is_now = ap (lookup part) same ∙ lookup-put_field part (folder inner) fields;
      elsewhere =
          λ q other. ap (lookup q) same ∙ lookup-put_other part q (folder inner) fields other;
    }

add_parts-new :
    (part next : Text) (rest : List Text) (node : WriteNode) (fields : WriteFields)
    → bad_name part ≡ false
    → lookup part fields ≡ none
    → add_parts part (next ∷ rest) node (some fields)
      ≡ in_folder part
          (some (put_field part (folder end) fields))
          (add_parts next rest node (some end))
unfolding add_parts
add_parts-new part next rest node fields b h = rw (b, h, add_parts) refl

pub add_parts-old :
    (part next : Text) (rest : List Text) (node child : WriteNode) (fields : WriteFields)
    → bad_name part ≡ false
    → lookup part fields ≡ some child
    → add_parts part (next ∷ rest) node (some fields)
      ≡ in_folder part (some fields) (add_parts next rest node (files_of child))
unfolding add_parts
add_parts-old part next rest node child fields b h = rw (b, h, add_parts) refl

pub add_parts-Descends :
    (part next : Text) (rest : List Text) (node : WriteNode) (fields more : WriteFields)
    → add_parts part (next ∷ rest) node (some fields) ≡ added more
    → Descends part next rest node fields more
add_parts-Descends part next rest node fields more e =
    let good = add_parts_good part (next ∷ rest) node (some fields) more e in
    elim (Option-cases (lookup part fields)) [
      | inl h ↦
          in_new_folder part next rest node fields more h
            (sym (add_parts-new part next rest node fields good h) ∙ e)
      | inr (child, h) ↦
          in_old_folder part next rest node child fields more h
            (sym (add_parts-old part next rest node child fields good h) ∙ e)
    ]
