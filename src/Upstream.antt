-- ===== src/Upstream.antt =====
-- internal/upstream/releasecheck.go: which release is the latest stable one, and whether a target is
-- behind it. `atoi` is `strconv.Atoi`. The feed is what `json.Unmarshal` makes of it, and fetching
-- it, reading V8 from a page and the dates, addresses and times that are only carried along are left
-- out.
pub mod Latest
pub mod Picked
pub mod Tests
use golectron.Prelude.{
  ℕ, zero, suc, ◌+◌, ℤ, pos, negsuc, Bool, true, false, not, ◌&&◌, ◌||◌, ◌==◌, ltb, Option, none,
  some, List, [], ◌∷◌, ◌++◌, map, all, any, length, Outcome, ok, err, if◌then◌else◌,
}
use golectron.Text.{Text, codes, text_eq, is_empty, trim_space, split}

pub data UpstreamError : Type 0 where
  no_stable_releases electron_empty chromium_empty node_empty v8_empty : UpstreamError

pub record Versions : Type 0 where
  pub electron : Text
  pub chromium : Text
  pub node : Text
  pub v8 : Text

pub record ReleaseRecord : Type 0 where
  pub version : Text
  pub node : Text
  pub v8 : Text
  pub chrome : Text

pub record Mismatch : Type 0 where
  pub component : Text
  pub target : Text
  pub latest : Text
  pub stale : Bool

pub record CheckResult : Type 0 where
  pub target : Versions
  pub latest : Versions
  pub stale : Bool
  pub mismatches : List Mismatch

-- -1, 0 and 1 of `compareVersions`.
pub data Comparison : Type 0 where
  older same newer : Comparison

abbrev pub is_newer : Comparison → Bool
is_newer newer = true
is_newer _ = false

abbrev pub is_older : Comparison → Bool
is_older older = true
is_older _ = false

-- `a < b`
abbrev pub int_ltb : ℤ → ℤ → Bool
int_ltb (pos a) (pos b) = ltb a b
int_ltb (negsuc a) (negsuc b) = ltb b a
int_ltb (negsuc a) (pos b) = true
int_ltb (pos a) (negsuc b) = false

-- One round of the loop of `compareVersions`, with what the later rounds say.
abbrev pub round : ℤ → ℤ → Comparison → Comparison
round a b later = if int_ltb a b then older else if int_ltb b a then newer else later

abbrev pub first_part : List ℤ → ℤ
first_part [] = pos 0
first_part (a ∷ xs) = a

abbrev pub later_parts : List ℤ → List ℤ
later_parts [] = []
later_parts (a ∷ xs) = xs

pub compare_parts : ℕ → List ℤ → List ℤ → Comparison
compare_parts zero xs ys = same
compare_parts (suc n) xs ys =
    round (first_part xs) (first_part ys) (compare_parts n (later_parts xs) (later_parts ys))

abbrev pub larger : ℕ → ℕ → ℕ
larger a b = if ltb a b then b else a

-- `strings.TrimPrefix(s, "v")`
abbrev pub trim_v : Text → Text
trim_v [] = []
trim_v (c ∷ s) = if c == b'v' then s else c ∷ s

-- `strings.Split(s, "-")[0]`
pub before_dash : Text → Text
before_dash [] = []
before_dash (c ∷ s) = if c == b'-' then [] else c ∷ before_dash s

pub append_if_stale : Comparison → Text → Text → Text → List Mismatch → List Mismatch
append_if_stale c component target latest mismatches =
    if text_eq target latest
    then mismatches
    else mismatches
      ++ record { component = component; target = target; latest = latest; stale = is_older c } ∷ []

pub validate_core_versions : Versions → Option UpstreamError
validate_core_versions v =
    if is_empty (trim_space v.electron)
    then some electron_empty
    else if is_empty (trim_space v.chromium)
    then some chromium_empty
    else if is_empty (trim_space v.node)
    then some node_empty
    else none

pub validate_versions : Versions → Option UpstreamError
validate_versions v = elim (validate_core_versions v) [
  | some e ↦ some e
  | none ↦ if is_empty (trim_space v.v8) then some v8_empty else none
]

module _ (atoi : Text → Option ℤ) where
  abbrev pub number_or_zero : Option ℤ → ℤ
  number_or_zero none = pos 0
  number_or_zero (some n) = n

  abbrev pub version_part : Text → ℤ
  version_part part =
      if is_empty (trim_space part) then pos 0 else number_or_zero (atoi (trim_space part))

  pub version_parts : Text → List ℤ
  version_parts version = map version_part (split (before_dash (trim_v (trim_space version))) b'.')

  pub compare_versions : Text → Text → Comparison
  compare_versions a b =
      let xs = version_parts a in
      let ys = version_parts b in compare_parts (larger (length xs) (length ys)) xs ys

  abbrev pub is_number : Text → Bool
  is_number part = not (is_empty part) && elim (atoi part) [ none ↦ false | some n ↦ true ]

  pub is_stable_semver : Text → Bool
  is_stable_semver raw =
      let version = trim_v (trim_space raw) in
      let parts = split version b'.' in
      not (any (λ c. c == b'-') version) && (length parts == 3) && all is_number parts

  abbrev pub better : Option ReleaseRecord → ReleaseRecord → Bool
  better none r = true
  better (some best) r = is_newer (compare_versions r.version best.version)

  -- The loop of `ParseLatestStable`, with the best record so far.
  pub pick : Option ReleaseRecord → List ReleaseRecord → Option ReleaseRecord
  pick best [] = best
  pick best (r ∷ rs) =
      pick (if is_stable_semver r.version && better best r then some r else best) rs

  abbrev pub latest_of : ReleaseRecord → Versions
  latest_of r = record { electron = r.version; chromium = r.chrome; node = r.node; v8 = r.v8 }

  abbrev pub validated : Option UpstreamError → Versions → Outcome UpstreamError Versions
  validated none v = ok v
  validated (some e) v = err e

  pub parse_latest_stable : List ReleaseRecord → Outcome UpstreamError Versions
  parse_latest_stable records = elim (pick none records) [
    | none ↦ err no_stable_releases
    | some best ↦ validated (validate_core_versions (latest_of best)) (latest_of best)
  ]

  pub append_if_different : Text → Text → Text → List Mismatch → List Mismatch
  append_if_different component target latest mismatches =
      append_if_stale (compare_versions target latest) component target latest mismatches

  abbrev pub mismatches_of : Versions → Versions → List Mismatch
  mismatches_of t l = append_if_different (codes "v8") t.v8 l.v8 (
      append_if_different (codes "node") t.node l.node (
        append_if_different (codes "chromium") t.chromium l.chromium
          (append_if_different (codes "electron") t.electron l.electron [])))

  pub compare : Versions → Versions → Outcome UpstreamError CheckResult
  compare t l = elim (validate_versions t) [
    | some e ↦ err e
    | none ↦ elim (validate_versions l) [
      | some e ↦ err e
      | none ↦ ok (record {
        target = t;
        latest = l;
        stale = any (λ (m : Mismatch). m.stale) (mismatches_of t l);
        mismatches = mismatches_of t l;
      })
    ]
  ]
