-- ===== src/ViewTree/Refs.antt =====
-- internal/view/view.go: the slice of children, and how often a child stands in it.
use golectron.Prelude.{
  ℕ, zero, suc, ◌+◌, ◌-◌, ◌≡◌, refl, Bool, true, false, List, [], ◌∷◌, ◌++◌, take, drop, ltb, ◌==◌,
  if◌then◌else◌, arith,
}

abbrev pub prepend : ℕ → Bool × List ℕ → Bool × List ℕ
prepend x (found, rest) = (found, x ∷ rest)

-- `removeChildRef`: whether the child was there, and the slice without its first occurrence.
unfoldable pub remove_child_ref : List ℕ → ℕ → Bool × List ℕ
remove_child_ref [] child = (false, [])
remove_child_ref (x ∷ xs) child =
    let rest = remove_child_ref xs child in if x == child then (true, xs) else prepend x rest

-- The `append`, `copy` and store of `AddChild`.
unfoldable pub insert_at : ℕ → ℕ → List ℕ → List ℕ
insert_at i child xs = take i xs ++ child ∷ drop i xs

abbrev pub one_if : Bool → ℕ
one_if true = 1
one_if false = 0

unfoldable pub count : ℕ → List ℕ → ℕ
count c [] = 0
count c (x ∷ xs) = one_if (x == c) + count c xs

pub found-count : (xs : List ℕ) (child : ℕ) → (remove_child_ref xs child).0 ≡ ltb 0 (count child xs)
unfolding remove_child_ref count
found-count [] child = refl
found-count (x ∷ xs) child = ground (arith, found-count xs child)

pub count-remove_child_ref :
    (xs : List ℕ) (child c : ℕ)
    → count c (remove_child_ref xs child).1 ≡ count c xs - one_if (c == child)
unfolding remove_child_ref count
count-remove_child_ref [] child c = ground arith
count-remove_child_ref (x ∷ xs) child c = ground (arith, count-remove_child_ref xs child c)

count-append : (xs ys : List ℕ) (c : ℕ) → count c (xs ++ ys) ≡ count c xs + count c ys
unfolding count
count-append [] ys c = omega arith
count-append (x ∷ xs) ys c = omega (arith, count-append xs ys c)

count-take-drop :
    (i : ℕ) (xs : List ℕ) (c : ℕ) → count c (take i xs) + count c (drop i xs) ≡ count c xs
unfolding count
count-take-drop zero xs c = omega arith
count-take-drop (suc i) [] c = omega arith
count-take-drop (suc i) (x ∷ xs) c = omega (arith, count-take-drop i xs c)

pub count-insert_at :
    (i child c : ℕ) (xs : List ℕ)
    → count c (insert_at i child xs) ≡ one_if (child == c) + count c xs
unfolding insert_at count
count-insert_at i child c xs =
    omega (arith, count-append (take i xs) (child ∷ drop i xs) c, count-take-drop i xs c)
