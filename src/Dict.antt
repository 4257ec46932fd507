-- ===== src/Dict.antt =====
-- A Go map with string keys, as the function from each key to its value. No component here ranges
-- over such a map, so the order of its entries plays no part.
use golectron.Prelude.{◌≡◌, refl, Bool, true, false, Option, none, some, if◌then◌else◌}
use golectron.Text.{Text, text_eq, text_eq_refl}

abbrev pub Dict : Type 0 → Type 0
Dict V = Text → Option V

module _ {V : Type 0} where
  abbrev pub empty : Dict V
  empty k = none

  -- `d[k] = v` and `delete(d, k)`
  abbrev pub put : Text → V → Dict V → Dict V
  put k v d = λ j. if text_eq k j then some v else d j

  abbrev pub delete : Text → Dict V → Dict V
  delete k d = λ j. if text_eq k j then none else d j

  -- `_, ok := d[k]`
  abbrev pub has : Option V → Bool
  has none = false
  has (some v) = true

  pub get-put_self : (k : Text) (v : V) (d : Dict V) → put k v d k ≡ some v
  get-put_self k v d = rw (text_eq_refl k) refl

  pub get-delete_self : (k : Text) (d : Dict V) → delete k d k ≡ none
  get-delete_self k d = rw (text_eq_refl k) refl
