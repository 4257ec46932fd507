-- ===== src/ViewTree/Places.antt =====
-- The slice of children of internal/view/view.go: taking a child out, and where it is put.
use golectron.Prelude.{
  ℕ, zero, suc, ◌≤◌, ◌<◌, ◌⊎◌, inl, inr, Bool-cases, if◌then◌else◌, ltb, take, drop, sym, ap, ◌≡◌,
  refl, false, ℤ, pos, negsuc, Option, none, some, List, [], ◌∷◌, ◌++◌, length, ◌==◌, arith,
}
use golectron.ViewTree.Refs.{remove_child_ref, insert_at, count}
use golectron.ViewTree.{clamp}

-- A slice without a child.
pub without : ℕ → List ℕ → List ℕ
without child [] = []
without child (x ∷ xs) = if x == child then without child xs else x ∷ without child xs

pub without_absent : (child : ℕ) (xs : List ℕ) → count child xs ≡ 0 → without child xs ≡ xs
unfolding count without
without_absent child [] h = refl
without_absent child (x ∷ xs) h =
    let other : (x == child) ≡ false = ground (arith, h) in
    rw other (ap (λ l. x ∷ l) (without_absent child xs (ground (arith, h))))

pub without_twice : (child : ℕ) (xs : List ℕ) → without child (without child xs) ≡ without child xs
unfolding without
without_twice child [] = refl
without_twice child (x ∷ xs) = elim (Bool-cases (x == child)) [
  | inl e ↦ rw e (without_twice child xs)
  | inr e ↦ rw (e, e) (ap (λ l. x ∷ l) (without_twice child xs))
]

-- A child that stands once is gone after its first occurrence is.
pub remove_child_ref_once :
    (child : ℕ) (xs : List ℕ)
    → count child xs ≤ 1
    → (remove_child_ref xs child).1 ≡ without child xs
unfolding count without remove_child_ref
remove_child_ref_once child [] h = refl
remove_child_ref_once child (x ∷ xs) h = elim (Bool-cases (x == child)) [
  | inl e ↦ rw e (sym (without_absent child xs (ground (arith, h, e))))
  | inr e ↦ rw e (ap (λ l. x ∷ l) (remove_child_ref_once child xs (ground (arith, h, e))))
]

pub count-without : (child : ℕ) (xs : List ℕ) → count child (without child xs) ≡ 0
unfolding count without
count-without child [] = refl
count-without child (x ∷ xs) = elim (Bool-cases (x == child)) [
  | inl e ↦ rw e (count-without child xs)
  | inr e ↦ rw (e, e) (omega (arith, count-without child xs))
]

-- Where a child stands in a slice that it was put into: at the end without an index, in front for a
-- negative one, otherwise behind as many as the index says, and at the end if there are fewer.
pub Placed : Option ℤ → ℕ → List ℕ → List ℕ → Type 0
Placed none child rest xs = xs ≡ rest ++ child ∷ []
Placed (some (negsuc i)) child rest xs = xs ≡ child ∷ rest
Placed (some (pos i)) child rest xs =
    (before : List ℕ) × (behind : List ℕ) × (rest ≡ before ++ behind)
    × (xs ≡ before ++ child ∷ behind)
    × ((length before ≡ i) ⊎ ((length before < i) × (behind ≡ [])))

take_all : (xs : List ℕ) → take (length xs) xs ≡ xs
take_all [] = refl
take_all (x ∷ xs) = ap (λ l. x ∷ l) (take_all xs)

drop_all : (xs : List ℕ) → drop (length xs) xs ≡ []
drop_all [] = refl
drop_all (x ∷ xs) = drop_all xs

parted : (i : ℕ) (xs : List ℕ) → xs ≡ take i xs ++ drop i xs
parted zero xs = refl
parted (suc i) [] = refl
parted (suc i) (x ∷ xs) = ap (λ l. x ∷ l) (parted i xs)

length-take : (i : ℕ) (xs : List ℕ) → i ≤ length xs → length (take i xs) ≡ i
length-take zero xs h = refl
length-take (suc i) [] h = absurd (omega arith)
length-take (suc i) (x ∷ xs) h = ap suc (length-take i xs (omega arith))

pub insert_at-Placed :
    (index : Option ℤ) (child : ℕ) (rest : List ℕ)
    → Placed index child rest (insert_at (clamp index (length rest)) child rest)
unfolding insert_at clamp Placed
insert_at-Placed none child rest = rw (take_all rest, drop_all rest) refl
insert_at-Placed (some (negsuc i)) child rest = refl
insert_at-Placed (some (pos i)) child rest = elim (Bool-cases (ltb (length rest) i)) [
  | inl e ↦ rw e (
    take (length rest) rest,
    drop (length rest) rest,
    parted (length rest) rest,
    refl,
    inr (ground (arith, e, ap length (take_all rest)), drop_all rest),
  )
  | inr e ↦
      rw e (
        take i rest,
        drop i rest,
        parted i rest,
        refl,
        inl (length-take i rest (ground (arith, e))),
      )
]
