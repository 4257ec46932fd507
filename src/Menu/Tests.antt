-- ===== src/Menu/Tests.antt =====
-- Runs of internal/menu/menu.go, and the theorems at a concrete menu.
use golectron.Prelude.{◌≡◌, refl, true, false, none, some, [], ◌∷◌, ◌++◌}
use golectron.Text.{codes, text_eq, is_space, trim_left, trim_right, trim_space}
use golectron.Menu.{
  TemplateFields, ItemFields, Templates, no_templates, template, no_items, item, no_submenu,
  submenu, Menu, item_by_id, in_submenu, update_item, update_event,
}
use golectron.Menu.Update.{Rewritten, outline, update_item_lem}

abbrev open_template : TemplateFields
open_template = record {
  id = codes " open";
  label = codes "Open";
  type_name = [];
  role = [];
  accelerator = codes "Ctrl+O ";
  enabled = none;
  visible = none;
  checked = false;
}

abbrev file_template : TemplateFields
file_template = record open_template { id = codes "file"; label = codes "File"; accelerator = [] }

abbrev open_item : ItemFields
open_item = record {
  id = codes "open";
  label = codes "Open";
  type_name = codes "normal";
  role = [];
  accelerator = codes "Ctrl+O";
  enabled = true;
  visible = true;
  checked = false;
}

abbrev file_item : ItemFields
file_item = record open_item {
  id = codes "file";
  label = codes "File";
  type_name = codes "submenu";
  accelerator = [];
}

abbrev bar : Menu
bar = record {
  items = item file_item (submenu (item open_item no_submenu no_items)) no_items;
  disposed = false;
  events = [];
}

abbrev bar_template : Templates
bar_template =
    template file_template (template open_template no_templates no_templates) no_templates

open_found : item_by_id (codes "open") bar.items ≡ some open_item
unfolding item_by_id in_submenu text_eq trim_space trim_left trim_right is_space
open_found = refl

update_item_lem_example :
    let after = update_item (codes "open") file_template bar in
    (after.0 ≡ none)
    × Rewritten
        (trim_space (codes "open"))
        file_template
        open_item
        (outline 0 bar.items)
        (outline 0 after.1.items)
    × (after.1.events ≡ bar.events ++ update_event (codes "open") ∷ [])
update_item_lem_example = update_item_lem (codes "open") file_template open_item bar refl open_found
