-- ===== src/Asar/Paths/Escapes.antt =====
-- Paths that internal/asar/archive.go takes amiss.
use golectron.Prelude.{◌≡◌, refl, ap, ◌∙◌, false, List, [], ◌∷◌, ◌++◌, ok, is_negative}
use golectron.Text.{
  Text, codes, text_eq, is_space, trim_left, trim_right, trim_space, has_prefix, has_suffix, split,
  join,
}
use golectron.FilePath.{slash, clean_elements, clean, join_elements}
use golectron.Asar.Paths.{Entry, normalize_inner_path, normalize_entry, split_parts, split_path}

split_parts_rooted :
    (passed parts : List Text) → split_parts ([] ∷ passed) parts ≡ split_parts passed parts
unfolding split_parts join_elements
split_parts_rooted passed [] = refl
split_parts_rooted passed (part ∷ rest) = rw (split_parts_rooted (passed ++ part ∷ []) rest)

root_dropped : (parts : List Text) → split_parts [] ([] ∷ parts) ≡ split_parts [] parts
unfolding split_parts has_suffix
root_dropped parts = split_parts_rooted [] parts

-- `Split` loses the root: an absolute path, once cleaned, splits into the same paths as the
-- relative path of its elements.
pub split_path_rooted :
    (path kept : Text)
    → clean (trim_space path) ≡ slash ∷ kept
    → split_path path ≡ split_parts [] (split kept slash)
unfolding split_path split
split_path_rooted path kept e =
    ap (λ p. split_parts [] (split p slash)) e ∙ root_dropped (split kept slash)

-- An entry that stands for the folder above the archive is accepted.
dot_dot_accepted :
    (e : Entry)
    → is_negative e.size ≡ false
    → is_negative e.offset ≡ false
    → normalize_entry (record e { path = codes ".." }) ≡ ok (record e { path = codes ".." })
unfolding normalize_entry normalize_inner_path clean clean_elements split join trim_space trim_left
    trim_right is_space has_prefix text_eq
dot_dot_accepted e h k = rw (h, k) refl
