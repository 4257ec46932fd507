-- ===== src/Text/Trim.antt =====
-- What `strings.TrimSpace` leaves has no space at either end, and is trimmed by a second call to
-- itself.
use golectron.Prelude.{◌≡◌, refl, false, [], ◌∷◌, ◌++◌, arith, ℕ, ap, ◌∙◌}
use golectron.Text.{Text, is_space, trim_left, trim_right, cons_trimmed, trim_space}

-- The first rune is no space.
abbrev pub StartsPlain : Text → Type 0
StartsPlain [] = Unit {0}
StartsPlain (c ∷ s) = is_space c ≡ false

trim_left-StartsPlain : (s : Text) → StartsPlain (trim_left s)
unfolding trim_left
trim_left-StartsPlain [] = tt
trim_left-StartsPlain (c ∷ s) = ground (arith, trim_left-StartsPlain s)

trim_left_of_StartsPlain : (s : Text) → StartsPlain s → trim_left s ≡ s
unfolding trim_left
trim_left_of_StartsPlain [] h = refl
trim_left_of_StartsPlain (c ∷ s) h = rw h

cons_trimmed-StartsPlain : (c : ℕ) (s : Text) → is_space c ≡ false → StartsPlain (cons_trimmed c s)
cons_trimmed-StartsPlain c [] h = rw h h
cons_trimmed-StartsPlain c (d ∷ s) h = h

trim_right-StartsPlain : (s : Text) → StartsPlain s → StartsPlain (trim_right s)
unfolding trim_right
trim_right-StartsPlain [] h = tt
trim_right-StartsPlain (c ∷ s) h = cons_trimmed-StartsPlain c (trim_right s) h

trim_right-cons_trimmed :
    (c : ℕ) (s : Text) → trim_right s ≡ s → trim_right (cons_trimmed c s) ≡ cons_trimmed c s
unfolding trim_right
trim_right-cons_trimmed c [] h = ground arith
trim_right-cons_trimmed c (d ∷ s) h = rw h

pub trim_right_idem : (s : Text) → trim_right (trim_right s) ≡ trim_right s
unfolding trim_right
trim_right_idem [] = refl
trim_right_idem (c ∷ s) = trim_right-cons_trimmed c (trim_right s) (trim_right_idem s)

pub trim_space-StartsPlain : (s : Text) → StartsPlain (trim_space s)
unfolding trim_space
trim_space-StartsPlain s = trim_right-StartsPlain (trim_left s) (trim_left-StartsPlain s)

pub trim_space_of_StartsPlain : (s : Text) → StartsPlain s → trim_space s ≡ trim_right s
unfolding trim_space
trim_space_of_StartsPlain s h = ap trim_right (trim_left_of_StartsPlain s h)

pub trim_space_idem : (s : Text) → trim_space (trim_space s) ≡ trim_space s
trim_space_idem s =
    trim_space_of_StartsPlain (trim_space s) (trim_space-StartsPlain s)
    ∙ (unfold trim_space in trim_right_idem (trim_left s))

-- A trimmed end stays trimmed under any text in front of it.
pub trim_right-append :
    (s t : Text) (c : ℕ) → trim_right (c ∷ t) ≡ c ∷ t → trim_right (s ++ c ∷ t) ≡ s ++ c ∷ t
unfolding trim_right
trim_right-append [] t c h = h
trim_right-append (d ∷ []) t c h = rw h
trim_right-append (d ∷ e ∷ s) t c h = rw (trim_right-append (e ∷ s) t c h)
