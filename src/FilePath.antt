-- ===== src/FilePath.antt =====
-- What the code uses of package path/filepath, on a system whose separator is `/`.
use golectron.Prelude.{ℕ, Bool, true, false, ◌||◌, List, [], ◌∷◌, if◌then◌else◌}
use golectron.Text.{Text, codes, text_eq, is_empty, has_prefix, split, join}

abbrev pub slash : ℕ
slash = b'/'

abbrev pub is_dot : Text → Bool
is_dot p = text_eq p (codes ".")

abbrev pub is_dot_dot : Text → Bool
is_dot_dot p = text_eq p (codes "..")

-- The elements kept so far stand in reverse. `..` takes the last one back; at the root it is
-- dropped, and a relative path keeps it.
abbrev step_up : Bool → List Text → List Text
step_up true [] = []
step_up false [] = codes ".." ∷ []
step_up rooted (p ∷ kept) = if is_dot_dot p then codes ".." ∷ p ∷ kept else kept

abbrev clean_element : Bool → Text → List Text → List Text
clean_element rooted p kept =
    if is_empty p || is_dot p then kept else if is_dot_dot p then step_up rooted kept else p ∷ kept

unfoldable pub clean_elements : Bool → List Text → List Text → List Text
clean_elements rooted [] kept = kept
clean_elements rooted (p ∷ ps) kept = clean_elements rooted ps (clean_element rooted p kept)

abbrev reverse_onto : List Text → List Text → List Text
reverse_onto [] acc = acc
reverse_onto (p ∷ ps) acc = reverse_onto ps (p ∷ acc)

abbrev or_dot : Text → Text
or_dot [] = codes "."
or_dot (c ∷ s) = c ∷ s

-- filepath.Clean
unfoldable pub clean : Text → Text
clean path =
    let rooted = has_prefix path (codes "/") in
    let kept = join (reverse_onto (clean_elements rooted (split path slash) []) []) slash in
    if rooted then slash ∷ kept else or_dot kept

-- filepath.Join
unfoldable pub join_elements : List Text → Text
join_elements [] = []
join_elements ([] ∷ ps) = join_elements ps
join_elements ((c ∷ p) ∷ ps) = clean (join ((c ∷ p) ∷ ps) slash)
