-- ===== src/Asar/Header/Kept.antt =====
-- The files that stand in a header of internal/asar/archive.go while others are added.
use golectron.Prelude.{
  ◌≡◌, ◌⊎◌, sym, ap, ◌∙◌, subst, Bool, true, false, ◌&&◌, Option, none, some, Bool-cases, List, [],
  ◌∷◌, ◌++◌, inl, inr, arith,
}
use golectron.Text.{Text, text_eq, text_eq_iff}
use golectron.Asar.Header.{
  WriteNode, folder, WriteFields, lookup, bad_name, added, panics, in_folder, add_parts, files_of,
}
use golectron.Asar.Header.Losses.{in_node, find_parts, find_parts-add_parts}
use golectron.Asar.Header.Descents.{
  lookup-put_other, add_parts_good, add_parts_last, add_parts-Descends, add_parts-nil,
  add_parts-old,
}

-- The first names are the start of the second, or all of them.
unfoldable pub is_start : Text → List Text → Text → List Text → Bool
is_start q [] p ps = text_eq q p
is_start q (q' ∷ qs) p [] = false
is_start q (q' ∷ qs) p (p' ∷ ps) = let rest = is_start q' qs p' ps in text_eq q p && rest

-- A file has no map.
abbrev pub IsFile : WriteNode → Type 0
IsFile node = files_of node ≡ none

pub find_parts-elsewhere :
    (p : Text) (ps : List Text) (fields more : WriteFields)
    → lookup p more ≡ lookup p fields
    → find_parts (p ∷ ps) more ≡ find_parts (p ∷ ps) fields
unfolding find_parts
find_parts-elsewhere p [] fields more e = e
find_parts-elsewhere p (p' ∷ ps) fields more e = ap (in_node (find_parts (p' ∷ ps))) e

below_parts :
    (p p' : Text) (ps : List Text) (fields inner : WriteFields)
    → lookup p fields ≡ some (folder inner)
    → find_parts (p ∷ p' ∷ ps) fields ≡ find_parts (p' ∷ ps) inner
unfolding find_parts
below_parts p p' ps fields inner e = ap (in_node (find_parts (p' ∷ ps))) e

none-some : {A : Type 0} {a : A} → Path (Option A) none (some a) → ⊥
none-some e = cc e

same_node : {a b : WriteNode} → Path (Option WriteNode) (some a) (some b) → a ≡ b
same_node e = cc e

-- Where something stands below a name, the folder there is the one that the adding found.
was_folder :
    (p p' : Text) (ps : List Text) (node : WriteNode) (fields below : WriteFields)
    → find_parts (p ∷ p' ∷ ps) fields ≡ some node
    → ((lookup p fields ≡ none) ⊎ (lookup p fields ≡ some (folder below)))
    → lookup p fields ≡ some (folder below)
unfolding find_parts
was_folder p p' ps node fields below h (inr e) = e
was_folder p p' ps node fields below h (inl e) =
    absurd (none-some (sym (ap (in_node (find_parts (p' ∷ ps))) e) ∙ h))

-- Where a file stands, no folder was found.
no_folder :
    (p : Text) (node : WriteNode) (fields below : WriteFields)
    → find_parts (p ∷ []) fields ≡ some node
    → IsFile node
    → ((lookup p fields ≡ none) ⊎ (lookup p fields ≡ some (folder below)))
    → ⊥
unfolding find_parts
no_folder p node fields below h f (inl e) = none-some (sym e ∙ h)
no_folder p node fields below h f (inr e) =
    none-some (sym f ∙ sym (ap files_of (same_node (sym e ∙ h))))

start_below :
    (p q' p' : Text) (q : Text) (qs ps : List Text)
    → text_eq q p ≡ true
    → is_start q (q' ∷ qs) p (p' ∷ ps) ≡ false
    → is_start q' qs p' ps ≡ false
unfolding is_start
start_below p q' p' q qs ps e h = ground (arith, e, h)

-- A file that stands in the header stands there after another was added, unless that one's names are
-- the start of its own.
pub find_parts_kept :
    (p : Text) (ps : List Text) (q : Text) (qs : List Text) (node added_node : WriteNode)
    (fields more : WriteFields)
    → find_parts (p ∷ ps) fields ≡ some node
    → IsFile node
    → is_start q qs p ps ≡ false
    → add_parts q qs added_node (some fields) ≡ added more
    → find_parts (p ∷ ps) more ≡ some node
unfolding is_start
find_parts_kept p ps q [] node added_node fields more h f apart e =
    find_parts-elsewhere p ps fields more (
      ap (lookup p) (add_parts_last q added_node fields more e)
      ∙ lookup-put_other q p added_node fields apart)
    ∙ h
find_parts_kept p [] q (q' ∷ qs) node added_node fields more h f apart e =
    let d = add_parts-Descends q q' qs added_node fields more e in
    elim (Bool-cases (text_eq q p)) [
      | inr other ↦ find_parts-elsewhere p [] fields more (d.elsewhere p other) ∙ h
      | inl same ↦ absurd (
          no_folder p node fields d.below h f (
            subst (λ t. (lookup t fields ≡ none) ⊎ (lookup t fields ≡ some (folder d.below)))
              ((text_eq_iff q p).0 same) d.was))
    ]
find_parts_kept p (p' ∷ ps) q (q' ∷ qs) node added_node fields more h f apart e =
    let d = add_parts-Descends q q' qs added_node fields more e in
    elim (Bool-cases (text_eq q p)) [
      | inr other ↦ find_parts-elsewhere p (p' ∷ ps) fields more (d.elsewhere p other) ∙ h
      | inl same ↦
          let was = was_folder p p' ps node fields d.below h (
            subst (λ t. (lookup t fields ≡ none) ⊎ (lookup t fields ≡ some (folder d.below)))
              ((text_eq_iff q p).0 same) d.was) in
          below_parts p p' ps more d.inner
            (subst (λ t. lookup t more ≡ some (folder d.inner)) ((text_eq_iff q p).0 same) d.is_now)
          ∙ find_parts_kept p' ps q' qs node added_node d.below d.inner
              (sym (below_parts p p' ps fields d.below was) ∙ h) f
              (start_below p q' p' q qs ps same apart) d.adds
    ]

-- Where a file was added, at any depth, adding another below its names panics, whatever good name
-- comes next.
pub add_parts-below :
    (p : Text) (ps : List Text) (next : Text) (rest : List Text) (node below : WriteNode)
    (fields more : WriteFields)
    → add_parts p ps node (some fields) ≡ added more
    → IsFile node
    → bad_name next ≡ false
    → add_parts p (ps ++ next ∷ rest) below (some more) ≡ panics
add_parts-below p [] next rest node below fields more e f good =
    let here = find_parts-add_parts p [] node (some fields) more e in
    add_parts-old p next rest below node more (add_parts_good p [] node (some fields) more e)
      (unfold find_parts in here)
    ∙ ap (λ files. in_folder p (some more) (add_parts next rest below files)) f
    ∙ ap (in_folder p (some more)) (add_parts-nil next rest below good)
add_parts-below p (p' ∷ ps) next rest node below fields more e f good =
    let d = add_parts-Descends p p' ps node fields more e in
    add_parts-old p p' (ps ++ next ∷ rest) below (folder d.inner) more
      (add_parts_good p (p' ∷ ps) node (some fields) more e) d.is_now
    ∙ ap (in_folder p (some more))
        (add_parts-below p' ps next rest node below d.below d.inner d.adds f good)
