-- ===== src/Menu/Built.antt =====
-- What `BuildFromTemplate` of internal/menu/menu.go accepts.
use golectron.Prelude.{◌≡◌, Bool, true, false, not, ◌&&◌, List, [], any, Outcome, ok}
use golectron.Text.{Text, text_eq, is_empty, trim_space}
use golectron.Menu.{
  MenuError, item_separator, item_submenu, known_type, ItemFields, Items, no_items, item, Submenu,
  no_submenu, submenu, Menu, note_id,
}

-- An item has a trimmed identifier and a known type.
pub record IsSoundItem (f : ItemFields) : Type 0 where
  pub trimmed : trim_space f.id ≡ f.id
  pub known : known_type f.type_name ≡ true

-- Unless it is a separator, an item has a label or a role.
pub record IsNamed (f : ItemFields) : Type 0 where
  pub named :
      text_eq f.type_name item_separator ≡ false → is_empty f.label && is_empty f.role ≡ false

abbrev pub repeats : Text → List Text → Bool
repeats id seen = not (is_empty id) && any (text_eq id) seen

-- Sound items, no identifier in `seen` and none twice in a list; an item with a submenu has the type
-- for it, and an item without one is named.
mutual
  pub IsBuilt : List Text → Items → Type 0
  IsBuilt seen no_items = Unit
  IsBuilt seen (item f s rest) =
      IsSoundItem f
      × IsBuiltSubmenu f s
      × (repeats f.id seen ≡ false)
      × IsBuilt (note_id f.id seen) rest

  pub IsBuiltSubmenu : ItemFields → Submenu → Type 0
  IsBuiltSubmenu f no_submenu = IsNamed f
  IsBuiltSubmenu f (submenu items) = (f.type_name ≡ item_submenu) × IsBuilt [] items

record Builds (seen : List Text) (o : Outcome MenuError Items) : Type 0 where
  built : (items : Items) → o ≡ ok items → IsBuilt seen items

-- What `normalize_submenu` answers.
record IsItem (o : Outcome MenuError (ItemFields × Submenu)) : Type 0 where
  sound : (p : ItemFields × Submenu) → o ≡ ok p → IsSoundItem p.0 × IsBuiltSubmenu p.0 p.1
