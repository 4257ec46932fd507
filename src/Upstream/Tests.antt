-- ===== src/Upstream/Tests.antt =====
-- Runs of internal/upstream/releasecheck.go, and the theorems at concrete versions.
use golectron.Prelude.{
  ◌-◌, ℤ, pos, ◌≡◌, refl, false, ◌&&◌, leb, Option, none, some, [], ◌∷◌, if◌then◌else◌,
}
use golectron.Text.{Text, codes, is_space, trim_left, trim_right, trim_space, split}
use golectron.Upstream.{
  is_newer, ReleaseRecord, before_dash, version_parts, compare_parts, compare_versions,
  is_stable_semver, pick,
}
use golectron.Upstream.Latest.{compare_versions_trans, IsLatest}
use golectron.Upstream.Picked.{pick-IsLatest}

-- Numbers of one digit.
abbrev digit : Text → Option ℤ
digit (c ∷ []) = if leb b'0' c && leb c b'9' then some (pos (c - 48)) else none
digit s = none

abbrev old : ReleaseRecord
old = record { version = codes "v1.2.3"; node = codes "1"; v8 = codes "1"; chrome = codes "1" }

abbrev new : ReleaseRecord
new = record old { version = codes "1.3.0" }

abbrev beta : ReleaseRecord
beta = record old { version = codes "9.0.0-beta" }

new_picked : pick digit none (old ∷ new ∷ beta ∷ []) ≡ some new
unfolding pick is_stable_semver compare_versions compare_parts version_parts before_dash split
    trim_space trim_left trim_right is_space
new_picked = refl

same_version : is_newer (compare_versions digit (codes "1.2") (codes "1.2.0")) ≡ false
unfolding compare_versions compare_parts version_parts before_dash split trim_space trim_left
    trim_right is_space
same_version = refl

next_version : is_newer (compare_versions digit (codes "1.2.0") (codes "2")) ≡ false
unfolding compare_versions compare_parts version_parts before_dash split trim_space trim_left
    trim_right is_space
next_version = refl

pick-IsLatest_example : IsLatest digit (old ∷ new ∷ beta ∷ []) new
pick-IsLatest_example = pick-IsLatest digit (old ∷ new ∷ beta ∷ []) new new_picked

compare_versions_trans_example : is_newer (compare_versions digit (codes "1.2") (codes "2")) ≡ false
compare_versions_trans_example =
    compare_versions_trans digit (codes "1.2") (codes "1.2.0") (codes "2") same_version next_version
