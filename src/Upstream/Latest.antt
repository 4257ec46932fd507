-- ===== src/Upstream/Latest.antt =====
-- Versions in internal/upstream/releasecheck.go: they are ordered, and the latest one is picked.
use golectron.Prelude.{
  ℕ, zero, suc, ◌+◌, ◌≤◌, ℤ, pos, negsuc, ◌≡◌, refl, sym, ap, ◌∙◌, true, false, Option, List, [],
  ◌∷◌, ◌++◌, ◌-◌, All, length, arith,
}
use golectron.Text.{Text}
use golectron.Upstream.{
  Comparison, same, is_newer, is_older, round, first_part, later_parts, compare_parts, larger,
  version_parts, compare_versions, ReleaseRecord, is_stable_semver,
}

round_trans :
    (x y z : ℤ) (o p q : Comparison)
    → (is_newer o ≡ false → is_newer p ≡ false → is_newer q ≡ false)
    → is_newer (round x y o) ≡ false
    → is_newer (round y z p) ≡ false
    → is_newer (round x z q) ≡ false
round_trans (pos a) (pos b) (pos c) o p q h i j = ground arith
round_trans (pos a) (pos b) (negsuc c) o p q h i j = ground arith
round_trans (pos a) (negsuc b) (pos c) o p q h i j = ground arith
round_trans (pos a) (negsuc b) (negsuc c) o p q h i j = ground arith
round_trans (negsuc a) (pos b) (pos c) o p q h i j = ground arith
round_trans (negsuc a) (pos b) (negsuc c) o p q h i j = ground arith
round_trans (negsuc a) (negsuc b) (pos c) o p q h i j = ground arith
round_trans (negsuc a) (negsuc b) (negsuc c) o p q h i j = ground arith

round_flip :
    (x y : ℤ) (o p : Comparison)
    → (is_newer o ≡ is_older p)
    → is_newer (round x y o) ≡ is_older (round y x p)
round_flip (pos a) (pos b) o p h = ground arith
round_flip (pos a) (negsuc b) o p h = refl
round_flip (negsuc a) (pos b) o p h = refl
round_flip (negsuc a) (negsuc b) o p h = ground arith

compare_trans :
    (n : ℕ) (xs ys zs : List ℤ)
    → is_newer (compare_parts n xs ys) ≡ false
    → is_newer (compare_parts n ys zs) ≡ false
    → is_newer (compare_parts n xs zs) ≡ false
unfolding compare_parts
compare_trans zero xs ys zs h i = refl
compare_trans (suc n) xs ys zs h i =
    round_trans (first_part xs) (first_part ys) (first_part zs) _ _ _
      (compare_trans n (later_parts xs) (later_parts ys) (later_parts zs)) h i

compare_flip :
    (n : ℕ) (xs ys : List ℤ) → is_newer (compare_parts n xs ys) ≡ is_older (compare_parts n ys xs)
unfolding compare_parts
compare_flip zero xs ys = refl
compare_flip (suc n) xs ys =
    round_flip (first_part xs) (first_part ys) _ _
      (compare_flip n (later_parts xs) (later_parts ys))

later_short : (xs : List ℤ) (n : ℕ) → length xs ≤ suc n → length (later_parts xs) ≤ n
later_short [] n h = omega arith
later_short (a ∷ xs) n h = omega arith

compare_nil : (k : ℕ) → compare_parts k [] [] ≡ same
unfolding compare_parts
compare_nil zero = refl
compare_nil (suc k) = compare_nil k

-- Rounds beyond both lists change nothing.
compare_more :
    (n k : ℕ) (xs ys : List ℤ)
    → length xs ≤ n
    → length ys ≤ n
    → compare_parts (n + k) xs ys ≡ compare_parts n xs ys
unfolding compare_parts
compare_more zero k [] [] h i =
    let none_left : zero + k ≡ k = omega arith in
    ap (λ m. compare_parts m [] []) none_left ∙ compare_nil k
compare_more zero k [] (y ∷ ys) h i = absurd (omega arith)
compare_more zero k (x ∷ xs) ys h i = absurd (omega arith)
compare_more (suc n) k xs ys h i =
    let one_more : suc n + k ≡ suc (n + k) = omega arith in
    ap (λ m. compare_parts m xs ys) one_more
    ∙ ap (round (first_part xs) (first_part ys)) (
        compare_more n k (later_parts xs) (later_parts ys) (later_short xs n h)
          (later_short ys n i))

compare_large :
    (n : ℕ) (xs ys : List ℤ)
    → length xs ≤ n
    → length ys ≤ n
    → compare_parts n xs ys ≡ compare_parts (larger (length xs) (length ys)) xs ys
compare_large n xs ys h i =
    let m = larger (length xs) (length ys) in
    let split_up : n ≡ m + (n - m) = ground arith in
    ap (λ k. compare_parts k xs ys) split_up
    ∙ compare_more m (n - m) xs ys (ground arith) (ground arith)

module _ (atoi : Text → Option ℤ) where
  compare_at :
      (n : ℕ) (a b : Text)
      → length (version_parts atoi a) ≤ n
      → length (version_parts atoi b) ≤ n
      → compare_parts n (version_parts atoi a) (version_parts atoi b) ≡ compare_versions atoi a b
  unfolding compare_versions
  compare_at n a b h i = compare_large n (version_parts atoi a) (version_parts atoi b) h i

  -- `compareVersions` is transitive for versions of any numbers of parts: a version that is not
  -- newer than a second one, which is not newer than a third, is not newer than the third.
  pub compare_versions_trans :
      (a b c : Text)
      → is_newer (compare_versions atoi a b) ≡ false
      → is_newer (compare_versions atoi b c) ≡ false
      → is_newer (compare_versions atoi a c) ≡ false
  compare_versions_trans a b c h i =
      let xs = version_parts atoi a in
      let ys = version_parts atoi b in
      let zs = version_parts atoi c in
      let n = length xs + length ys + length zs in
      let ab = compare_at n a b (omega arith) (omega arith) in
      let bc = compare_at n b c (omega arith) (omega arith) in
      let ac = compare_at n a c (omega arith) (omega arith) in
      sym (ap is_newer ac) ∙ compare_trans n xs ys zs (ap is_newer ab ∙ h) (ap is_newer bc ∙ i)

  -- Where a version is newer than another, and only then, the other is older than it.
  pub compare_versions_flip :
      (a b : Text) → is_newer (compare_versions atoi a b) ≡ is_older (compare_versions atoi b a)
  compare_versions_flip a b =
      let xs = version_parts atoi a in
      let ys = version_parts atoi b in
      let n = length xs + length ys in
      sym (ap is_newer (compare_at n a b (omega arith) (omega arith)))
      ∙ compare_flip n xs ys
      ∙ ap is_older (compare_at n b a (omega arith) (omega arith))

  -- `w` is the latest of the stable ones among the records.
  pub record IsLatest (rs : List ReleaseRecord) (w : ReleaseRecord) : Type 0 where
    pub stable : is_stable_semver atoi w.version ≡ true
    pub listed :
        (before : List ReleaseRecord) × (after : List ReleaseRecord) × (rs ≡ before ++ w ∷ after)
    pub latest :
        All
          (λ (r : ReleaseRecord).
            is_stable_semver atoi r.version ≡ true
            → is_newer (compare_versions atoi r.version w.version) ≡ false)
          rs
