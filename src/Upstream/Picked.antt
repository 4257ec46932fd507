-- ===== src/Upstream/Picked.antt =====
-- The loop of `ParseLatestStable` in internal/upstream/releasecheck.go picks the latest release.
use golectron.Prelude.{
  ℤ, ◌≡◌, refl, sym, ap, ◌∙◌, subst, Bool, true, false, ◌&&◌, Bool-cases, Option, none, some, List,
  [], ◌∷◌, ◌++◌, ◌⊎◌, All, if◌then◌else◌, inl, inr, arith,
}
use golectron.Text.{Text}
use golectron.Upstream.{
  Comparison, older, same, newer, is_newer, is_older, compare_versions, ReleaseRecord,
  is_stable_semver, better, pick,
}
use golectron.Upstream.Latest.{compare_versions_trans, compare_versions_flip, IsLatest}

same_pick : {a b : ReleaseRecord} → Path (Option ReleaseRecord) (some a) (some b) → a ≡ b
same_pick e = cc e

module _ (atoi : Text → Option ℤ) where
  -- What the loop has come to, from a best record that is none or stable.
  record Picks (best : Option ReleaseRecord) (rs : List ReleaseRecord) (w : ReleaseRecord)
      : Type 0 where
    stable : is_stable_semver atoi w.version ≡ true
    listed :
        (best ≡ some w)
        ⊎ ((before : List ReleaseRecord) × (after : List ReleaseRecord) × (rs
              ≡ before ++ w ∷ after))
    latest :
        All
          (λ (r : ReleaseRecord).
            is_stable_semver atoi r.version ≡ true
            → is_newer (compare_versions atoi r.version w.version) ≡ false)
          rs
    beats :
        (b : ReleaseRecord)
        → best ≡ some b
        → is_newer (compare_versions atoi b.version w.version) ≡ false

  never_both : (c : Comparison) → is_newer c ≡ is_older c → is_newer c ≡ false
  never_both older h = refl
  never_both same h = refl
  never_both newer h = h

  newer_alone : (c : Comparison) → is_newer c ≡ true → is_older c ≡ false
  newer_alone older h = cc h
  newer_alone same h = refl
  newer_alone newer h = refl

  not_newer_refl : (a : Text) → is_newer (compare_versions atoi a a) ≡ false
  not_newer_refl a = never_both (compare_versions atoi a a) (compare_versions_flip atoi a a)

  not_newer_back :
      (a b : Text)
      → is_newer (compare_versions atoi a b) ≡ true
      → is_newer (compare_versions atoi b a) ≡ false
  not_newer_back a b h =
      (compare_versions_flip atoi b a) ∙ newer_alone (compare_versions atoi a b) h

  kept_first :
      (best : Option ReleaseRecord) (r b : ReleaseRecord)
      → is_stable_semver atoi r.version && better atoi best r ≡ true
      → best ≡ some b
      → is_newer (compare_versions atoi r.version b.version) ≡ true
  kept_first best r b t f = subst (λ o. better atoi o r ≡ true) f (ground (arith, t))

  passed_over :
      (best : Option ReleaseRecord) (r b : ReleaseRecord)
      → is_stable_semver atoi r.version && better atoi best r ≡ false
      → is_stable_semver atoi r.version ≡ true
      → best ≡ some b
      → is_newer (compare_versions atoi r.version b.version) ≡ false
  passed_over best r b t st f = subst (λ o. better atoi o r ≡ false) f (ground (arith, t, st))

  -- The first stable record is always taken.
  none_passed :
      (best : Option ReleaseRecord) (r : ReleaseRecord)
      → is_stable_semver atoi r.version && better atoi best r ≡ false
      → is_stable_semver atoi r.version ≡ true
      → (b : ReleaseRecord) × (best ≡ some b)
  none_passed none r t st = absurd (ground (arith, t, st))
  none_passed (some b) r t st = (b, refl)

  pick_step :
      (best : Option ReleaseRecord) (r : ReleaseRecord) (rs : List ReleaseRecord) (b : Bool)
      → is_stable_semver atoi r.version && better atoi best r ≡ b
      → pick atoi best (r ∷ rs) ≡ pick atoi (if b then some r else best) rs
  unfolding pick
  pick_step best r rs b e = ap (λ c. pick atoi (if c then some r else best) rs) e

  pick-Picks :
      (best : Option ReleaseRecord) (rs : List ReleaseRecord) (w : ReleaseRecord)
      → ((b : ReleaseRecord) → best ≡ some b → is_stable_semver atoi b.version ≡ true)
      → pick atoi best rs ≡ some w
      → Picks best rs w
  unfolding pick
  pick-Picks best [] w h e = record {
    stable = h w e;
    listed = inl e;
    latest = tt;
    beats = λ b f.
        let same_record : b ≡ w = cc (e, f) in
        subst (λ (v : ReleaseRecord). is_newer (compare_versions atoi b.version v.version) ≡ false)
          same_record (not_newer_refl b.version);
  }
  pick-Picks best (r ∷ rs) w h e =
      elim (Bool-cases (is_stable_semver atoi r.version && better atoi best r)) [
        | inl t ↦
            let ih =
              pick-Picks (some r) rs w
                (λ b f.
                  subst (λ (v : ReleaseRecord). is_stable_semver atoi v.version ≡ true)
                    (same_pick f) (ground (arith, t)))
                (sym (pick_step best r rs true t) ∙ e) in
            record {
              stable = ih.stable;
              listed = elim ih.listed [
                | inl f ↦ inr ([], rs, ap (λ x. x ∷ rs) (same_pick f))
                | inr (before, after, f) ↦ inr (r ∷ before, after, ap (λ l. r ∷ l) f)
              ];
              latest = ((λ _. ih.beats r refl), ih.latest);
              beats = λ b f.
                  compare_versions_trans atoi b.version r.version w.version
                    (not_newer_back r.version b.version (kept_first best r b t f))
                    (ih.beats r refl);
            }
        | inr t ↦
            let ih = pick-Picks best rs w h (sym (pick_step best r rs false t) ∙ e) in
            record {
              stable = ih.stable;
              listed = elim ih.listed [
                | inl f ↦ inl f
                | inr (before, after, f) ↦ inr (r ∷ before, after, ap (λ l. r ∷ l) f)
              ];
              latest = (
                (λ st.
                    let (b, f) = none_passed best r t st in
                    compare_versions_trans atoi r.version b.version w.version
                      (passed_over best r b t st f) (ih.beats b f)),
                ih.latest,
              );
              beats = ih.beats;
            }
      ]

  -- The record that `ParseLatestStable` picks from a feed is a stable one of the feed, and no stable
  -- record of the feed is newer.
  pub pick-IsLatest :
      (rs : List ReleaseRecord) (w : ReleaseRecord)
      → pick atoi none rs ≡ some w
      → IsLatest atoi rs w
  pick-IsLatest rs w e =
      let p = pick-Picks none rs w (λ b f. cc f) e in
      record {
        stable = p.stable;
        listed = elim p.listed [ inl f ↦ cc f | inr l ↦ l ];
        latest = p.latest;
      }
