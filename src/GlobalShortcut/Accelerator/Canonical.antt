-- ===== src/GlobalShortcut/Accelerator/Canonical.antt =====
-- The tokens of an accelerator that was read: each is its own canonical form, and survives being
-- joined with `+` and split again.
use golectron.Prelude.{
  ℕ, ◌≡◌, ◌≤◌, refl, Bool, true, false, not, Option, none, some, [], ◌∷◌, ◌==◌, map, if-elim,
  if◌then◌else◌, arith, ◌||◌, ap, subst, all,
}
use mathlib.Core.Option.{some-injective}
use golectron.Text.{
  Text, codes, text_eq, is_empty, is_space, trim_left, trim_right, cons_trimmed, trim_space,
}
use golectron.Text.Trim.{StartsPlain, trim_space-StartsPlain, trim_right_idem}
use golectron.Text.Join.{Without, all-Without}
use golectron.GlobalShortcut.Accelerator.{
  CaseTable, plus, remove_spaces, modifier_of, to_lower, to_upper, canonical_modifier,
  canonical_key,
}

-- What the program relies on of the case tables, for runes beyond ASCII: a rune in upper case is
-- in upper case, is no space unless it was one, and is no `+`.
pub record CaseLaws (table : CaseTable) : Type 0 where
  pub upper_idem : (c : ℕ) → 128 ≤ c → to_upper table (table.upper c) ≡ table.upper c
  pub upper_space : (c : ℕ) → 128 ≤ c → is_space (table.upper c) ≡ is_space c
  pub upper_plus : (c : ℕ) → 128 ≤ c → (table.upper c == plus) ≡ false

-- A token with no space at its ends and no `+`.
pub record IsToken (t : Text) : Type 0 where
  pub nonempty : is_empty t ≡ false
  pub starts : StartsPlain t
  pub ends : trim_right t ≡ t
  pub no_plus : Without plus t

module _ (table : CaseTable) where
  pub record IsModifier (m : Text) : Type 0 where
    pub token : IsToken m
    pub stable : canonical_modifier table m ≡ some m

  pub record IsKey (k : Text) : Type 0 where
    pub token : IsToken k
    pub no_modifier : canonical_modifier table k ≡ none
    pub stable : canonical_key table k ≡ k

  record IsNamed (o : Option Text) : Type 0 where
    named : (m : Text) → o ≡ some m → IsModifier m

  none-IsNamed : IsNamed none
  none-IsNamed = record { named = λ m e. cc e }

  if-IsNamed :
      (b : Bool) (m : Text) (o : Option Text)
      → IsModifier m
      → IsNamed o
      → IsNamed (if b then some m else o)
  if-IsNamed true m o p q = record { named = λ n e. subst IsModifier (some-injective m n e) p }
  if-IsNamed false m o p q = q

  is_modifier :
      (m : Text)
      → (is_empty m ≡ false)
        × StartsPlain m
        × (trim_right m ≡ m)
        × (all (λ c. not (c == plus)) m ≡ true)
        × (canonical_modifier table m ≡ some m)
      → IsModifier m
  is_modifier m (nonempty, starts, ends, plain, stable) = record {
    token = record {
      nonempty = nonempty;
      starts = starts;
      ends = ends;
      no_plus = all-Without plus m plain;
    };
    stable = stable;
  }

  -- Each of the seven names is a modifier.
  modifier_of-IsNamed : (w : Text) → IsNamed (modifier_of w)
  unfolding modifier_of canonical_modifier to_lower remove_spaces text_eq trim_right is_space
  modifier_of-IsNamed w =
      if-IsNamed (text_eq w (codes "commandorcontrol") || text_eq w (codes "cmdorctrl"))
        (codes "CommandOrControl") _
        (is_modifier (codes "CommandOrControl") (refl, refl, refl, refl, refl))
        (if-IsNamed (text_eq w (codes "command") || text_eq w (codes "cmd")) (codes "Command") _
          (is_modifier (codes "Command") (refl, refl, refl, refl, refl))
          (if-IsNamed (text_eq w (codes "control") || text_eq w (codes "ctrl")) (codes "Control") _
            (is_modifier (codes "Control") (refl, refl, refl, refl, refl))
            (if-IsNamed (text_eq w (codes "alt") || text_eq w (codes "option")) (codes "Alt") _
              (is_modifier (codes "Alt") (refl, refl, refl, refl, refl))
              (if-IsNamed (text_eq w (codes "altgr")) (codes "AltGr") _
                (is_modifier (codes "AltGr") (refl, refl, refl, refl, refl))
                (if-IsNamed (text_eq w (codes "shift")) (codes "Shift") _
                  (is_modifier (codes "Shift") (refl, refl, refl, refl, refl))
                  (if-IsNamed (text_eq w (codes "super") || text_eq w (codes "meta"))
                    (codes "Super") _ (is_modifier (codes "Super") (refl, refl, refl, refl, refl))
                    (none-IsNamed)))))))

  pub canonical_modifier-IsModifier :
      (t m : Text) → canonical_modifier table t ≡ some m → IsModifier m
  unfolding canonical_modifier
  canonical_modifier-IsModifier t m e =
      (modifier_of-IsNamed (map (to_lower table) (remove_spaces t))).named m e

  Without-trim_left : (r : ℕ) (s : Text) → Without r s → Without r (trim_left s)
  unfolding trim_left
  Without-trim_left r [] w = tt
  Without-trim_left r (c ∷ s) w =
      if-elim (Without r) (is_space c) (λ _. Without-trim_left r s w.1) (λ _. w)

  Without-cons_trimmed :
      (r c : ℕ) (s : Text) → (c == r) ≡ false → Without r s → Without r (cons_trimmed c s)
  Without-cons_trimmed r c [] e w = if-elim (Without r) (is_space c) (λ _. tt) (λ _. (e, tt))
  Without-cons_trimmed r c (d ∷ s) e w = (e, w)

  Without-trim_right : (r : ℕ) (s : Text) → Without r s → Without r (trim_right s)
  unfolding trim_right
  Without-trim_right r [] w = tt
  Without-trim_right r (c ∷ s) w =
      Without-cons_trimmed r c (trim_right s) w.0 (Without-trim_right r s w.1)

  -- A part between two `+`, trimmed, is a token unless it is empty.
  pub trim_space-IsToken :
      (part : Text)
      → Without plus part
      → is_empty (trim_space part) ≡ false
      → IsToken (trim_space part)
  unfolding trim_space
  trim_space-IsToken part w e = record {
    nonempty = e;
    starts = trim_space-StartsPlain part;
    ends = trim_right_idem (trim_left part);
    no_plus = Without-trim_right plus (trim_left part) (Without-trim_left plus part w);
  }

  -- One rune names no modifier.
  short-no_modifier : (c : ℕ) → canonical_modifier table (c ∷ []) ≡ none
  unfolding canonical_modifier remove_spaces modifier_of text_eq
  short-no_modifier c = ground arith

  upper_rune_idem : CaseLaws table → (c : ℕ) → to_upper table (to_upper table c) ≡ to_upper table c
  unfolding to_upper
  upper_rune_idem laws c = ground (arith, laws.upper_idem c)

  upper_rune_space :
      CaseLaws table → (c : ℕ) → is_space c ≡ false → is_space (to_upper table c) ≡ false
  unfolding to_upper is_space
  upper_rune_space laws c e = ground (arith, laws.upper_space c)

  upper_rune_plus :
      CaseLaws table → (c : ℕ) → (c == plus) ≡ false → (to_upper table c == plus) ≡ false
  unfolding to_upper
  upper_rune_plus laws c e = ground (arith, laws.upper_plus c)

  pub canonical_key-IsKey :
      CaseLaws table
      → (t : Text) → IsToken t
      → canonical_modifier table t ≡ none
      → IsKey (canonical_key table t)
  unfolding canonical_key
  canonical_key-IsKey laws [] t e = cc t.nonempty
  canonical_key-IsKey laws (c ∷ []) t e = record {
    token = record {
      nonempty = refl;
      starts = upper_rune_space laws c t.starts;
      ends = unfold trim_right in rw (upper_rune_space laws c t.starts) refl;
      no_plus = (upper_rune_plus laws c t.no_plus.0, tt);
    };
    no_modifier = short-no_modifier (to_upper table c);
    stable = ap (λ r. r ∷ []) (upper_rune_idem laws c);
  }
  canonical_key-IsKey laws (c ∷ d ∷ s) t e = record { token = t; no_modifier = e; stable = refl }
