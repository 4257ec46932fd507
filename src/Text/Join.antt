-- ===== src/Text/Join.antt =====
-- `strings.Split` undoes `strings.Join` where no part holds the separator.
use golectron.Prelude.{
  ◌≡◌, refl, false, List, [], ◌∷◌, ◌++◌, arith, ℕ, ap, ◌∙◌, All, all, not, true, ◌==◌, if-elim,
}
use golectron.Text.{Text, split, join, push_head}

abbrev pub Without : ℕ → Text → Type 0
Without r = All (λ c. (c == r) ≡ false)

pub all-Without : (r : ℕ) (s : Text) → all (λ c. not (c == r)) s ≡ true → Without r s
all-Without r [] h = tt
all-Without r (c ∷ s) h = (ground arith, all-Without r s (ground arith))

split_of_Without : (p : Text) (sep : ℕ) → Without sep p → split p sep ≡ p ∷ []
unfolding split
split_of_Without [] sep h = refl
split_of_Without (c ∷ p) sep h = rw (h.0, split_of_Without p sep h.1)

split-append : (p s : Text) (sep : ℕ) → Without sep p → split (p ++ sep ∷ s) sep ≡ p ∷ split s sep
unfolding split
split-append [] s sep h = ground arith
split-append (c ∷ p) s sep h = rw (h.0, split-append p s sep h.1)

pub split-join :
    (p : Text) (ps : List Text) (sep : ℕ)
    → All (Without sep) (p ∷ ps)
    → split (join (p ∷ ps) sep) sep ≡ p ∷ ps
unfolding join
split-join p [] sep h = split_of_Without p sep h.0
split-join p (q ∷ ps) sep h =
    split-append p (join (q ∷ ps) sep) sep h.0 ∙ ap (λ r. p ∷ r) (split-join q ps sep h.1)

push_head-Without :
    (c sep : ℕ) (ps : List Text)
    → (c == sep) ≡ false
    → All (Without sep) ps
    → All (Without sep) (push_head c ps)
push_head-Without c sep [] e h = ((e, tt), tt)
push_head-Without c sep (p ∷ ps) e h = ((e, h.0), h.1)

-- The parts of a split hold no separator.
pub split-Without : (s : Text) (sep : ℕ) → All (Without sep) (split s sep)
unfolding split
split-Without [] sep = (tt, tt)
split-Without (c ∷ s) sep =
    if-elim (All (Without sep)) (c == sep) (λ _. (tt, split-Without s sep))
      (λ e. push_head-Without c sep (split s sep) e (split-Without s sep))
