-- ===== src/Menu.antt =====
-- internal/menu/menu.go: menus built from templates; Tray is the tray.
-- A `Menu` value is the state of a `*Menu`; a submenu is the list of its items, as the menu above it
-- sees it. A `nil` flag of a template is `none`.
pub mod Update
pub mod Built
pub mod Tray
pub mod Tests
use golectron.Prelude.{
  ℕ, Bool, true, false, not, ◌&&◌, ◌||◌, ◌==◌, Option, none, some, List, [], ◌∷◌, ◌++◌, any,
  Outcome, ok, err, if◌then◌else◌,
}
use golectron.Text.{Text, codes, text_eq, is_empty, trim_space}

pub data MenuError : Type 0 where
  invalid_menu_item menu_item_missing menu_disposed tray_disposed : MenuError

abbrev pub item_normal : Text
item_normal = codes "normal"

abbrev pub item_separator : Text
item_separator = codes "separator"

abbrev pub item_checkbox : Text
item_checkbox = codes "checkbox"

abbrev pub item_radio : Text
item_radio = codes "radio"

abbrev pub item_submenu : Text
item_submenu = codes "submenu"

abbrev pub known_type : Text → Bool
known_type t =
    text_eq t item_normal
    || text_eq t item_separator
    || text_eq t item_checkbox
    || text_eq t item_radio
    || text_eq t item_submenu

-- The fields of `ItemTemplate` and of `Item`, less the submenu.
pub record TemplateFields : Type 0 where
  pub id : Text
  pub label : Text
  pub type_name : Text
  pub role : Text
  pub accelerator : Text
  pub enabled : Option Bool
  pub visible : Option Bool
  pub checked : Bool

pub record ItemFields : Type 0 where
  pub id : Text
  pub label : Text
  pub type_name : Text
  pub role : Text
  pub accelerator : Text
  pub enabled : Bool
  pub visible : Bool
  pub checked : Bool

-- Lists of templates, each with the list of its own.
pub data Templates : Type 0 where
  no_templates : Templates
  template : TemplateFields → Templates → Templates → Templates

-- Lists of items, each with its submenu where it has one.
mutual
  pub data Items : Type 0 where
    no_items : Items
    item : ItemFields → Submenu → Items → Items

  pub data Submenu : Type 0 where
    no_submenu : Submenu
    submenu : Items → Submenu

pub data MenuEvent : Type 0 where
  update_event click_event : Text → MenuEvent
  popup_event dispose_event : MenuEvent

pub record Menu : Type 0 where
  pub items : Items
  pub disposed : Bool
  pub events : List MenuEvent

abbrev pub or_true : Option Bool → Bool
or_true none = true
or_true (some b) = b

-- `normalizeItem`, less the submenu.
pub normalize_fields : TemplateFields → Outcome MenuError ItemFields
normalize_fields t =
    let type_name = if is_empty t.type_name then item_normal else t.type_name in
    if not (known_type type_name)
    then err invalid_menu_item
    else if not (text_eq type_name item_separator) && is_empty t.label && is_empty t.role
    then err invalid_menu_item
    else ok (record {
      id = trim_space t.id;
      label = t.label;
      type_name = type_name;
      role = t.role;
      accelerator = trim_space t.accelerator;
      enabled = or_true t.enabled;
      visible = or_true t.visible;
      checked = t.checked;
    })

abbrev pub with_submenu : Items → ItemFields → ItemFields × Submenu
with_submenu items fields = (record fields { type_name = item_submenu }, submenu items)

-- The end of `normalizeItem`: what the submenu of the template came to.
abbrev pub normalize_submenu :
    Templates → Outcome MenuError Items → ItemFields → Outcome MenuError (ItemFields × Submenu)
normalize_submenu no_templates built f = ok (f, no_submenu)
normalize_submenu (template t sub rest) (err e) f = err e
normalize_submenu (template t sub rest) (ok items) f = ok (with_submenu items f)

abbrev pub note_id : Text → List Text → List Text
note_id id seen = if is_empty id then seen else id ∷ seen

-- Puts an item in front of what the rest of the loop built.
abbrev pub item_then : ItemFields × Submenu → Outcome MenuError Items → Outcome MenuError Items
item_then (f, s) (err e) = err e
item_then (f, s) (ok items) = ok (item f s items)

-- The loop of `BuildFromTemplate`, with the identifiers it has seen.
pub build_items : Templates → List Text → Outcome MenuError Items
build_items no_templates seen = ok no_items
build_items (template t sub rest) seen =
    let built = build_items sub [] in
    elim (normalize_fields t) [
      | err e ↦ err e
      | ok fields ↦ elim (normalize_submenu sub built fields) [
        | err e ↦ err e
        | ok normalized ↦
            let later = build_items rest (note_id normalized.0.id seen) in
            if not (is_empty normalized.0.id) && any (text_eq normalized.0.id) seen
            then err invalid_menu_item
            else item_then normalized later
      ]
    ]

pub build_from_template : Templates → Outcome MenuError Menu
build_from_template templates = elim (build_items templates []) [
  | err e ↦ err e
  | ok items ↦ ok (record { items = items; disposed = false; events = [] })
]

-- The first of two search results that is there.
abbrev pub or_later : {A : Type 0} → Option A → Option A → Option A
or_later (some a) later = some a
or_later none later = later

mutual
  pub item_by_id : Text → Items → Option ItemFields
  item_by_id id no_items = none
  item_by_id id (item f s rest) =
      let below = in_submenu (trim_space id) s in
      let later = item_by_id id rest in
      if text_eq f.id (trim_space id) then some f else or_later below later

  pub in_submenu : Text → Submenu → Option ItemFields
  in_submenu id no_submenu = none
  in_submenu id (submenu items) = item_by_id id items

-- What `UpdateItem` writes into an item.
pub update_fields : TemplateFields → ItemFields → ItemFields
update_fields u f = record f {
  label = if is_empty u.label then f.label else u.label;
  enabled = elim u.enabled [ none ↦ f.enabled | some b ↦ b ];
  visible = elim u.visible [ none ↦ f.visible | some b ↦ b ];
  accelerator = if is_empty u.accelerator then f.accelerator else trim_space u.accelerator;
  checked =
      if text_eq f.type_name item_checkbox || text_eq f.type_name item_radio
      then u.checked
      else f.checked;
}

-- The write through the `*Item` that `ItemByID` found.
mutual
  pub write_item : Text → TemplateFields → Items → Items
  write_item id u no_items = no_items
  write_item id u (item f s rest) =
      let below = write_submenu (trim_space id) u s in
      let later = write_item id u rest in
      if text_eq f.id (trim_space id)
      then item (update_fields u f) s rest
      else elim (in_submenu (trim_space id) s) [
        | some g ↦ item f below rest
        | none ↦ item f s later
      ]

  pub write_submenu : Text → TemplateFields → Submenu → Submenu
  write_submenu id u no_submenu = no_submenu
  write_submenu id u (submenu items) = submenu (write_item id u items)

pub update_item : Text → TemplateFields → Menu → Option MenuError × Menu
update_item id u m = if m.disposed then (some menu_disposed, m) else elim (item_by_id id m.items) [
  | none ↦ (some menu_item_missing, m)
  | some f ↦ (
    none,
    record m { items = write_item id u m.items; events = m.events ++ update_event id ∷ [] },
  )
]

abbrev pub log : MenuEvent → Menu → Menu
log e m = record m { events = m.events ++ e ∷ [] }

abbrev pub inactive : ItemFields → Bool
inactive f = not f.enabled || not f.visible || text_eq f.type_name item_separator

pub popup : Text → Menu → Option MenuError × Menu
popup id m =
    if m.disposed
    then (some menu_disposed, m)
    else if is_empty id
    then (none, log popup_event m)
    else elim (item_by_id id m.items) [
      | none ↦ (some menu_item_missing, m)
      | some f ↦ if inactive f then (some invalid_menu_item, m) else (none, log (click_event id) m)
    ]

pub dispose : Menu → Menu
dispose m = record m { disposed = true; events = m.events ++ dispose_event ∷ [] }
