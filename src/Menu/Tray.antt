-- ===== src/Menu/Tray.antt =====
-- The tray of internal/menu/menu.go. Its context menu is a reference into a store of menus, which
-- the tray shares with whoever else holds the menu.
use golectron.Prelude.{
  ℕ, Bool, true, false, ◌==◌, Option, none, some, List, [], ◌∷◌, ◌++◌, Outcome, ok, err,
  if◌then◌else◌,
}
use golectron.Text.{Text, is_empty, trim_space}
use golectron.Menu.{MenuError, invalid_menu_item, tray_disposed, Menu, popup}

pub data TrayEvent : Type 0 where
  tooltip_event title_event context_menu_event tray_click_event tray_dispose_event : TrayEvent

pub record Tray : Type 0 where
  pub image : Text
  pub tooltip : Text
  pub title : Text
  pub context_menu : Option ℕ
  pub events : List TrayEvent
  pub disposed : Bool

pub new_tray : Text → Outcome MenuError Tray
new_tray image =
    if is_empty (trim_space image)
    then err invalid_menu_item
    else ok (record {
      image = trim_space image;
      tooltip = [];
      title = [];
      context_menu = none;
      events = [];
      disposed = false;
    })

pub set_tool_tip : Text → Tray → Option MenuError × Tray
set_tool_tip tooltip t =
    if t.disposed
    then (some tray_disposed, t)
    else (none, record t { tooltip = tooltip; events = t.events ++ tooltip_event ∷ [] })

pub set_title : Text → Tray → Option MenuError × Tray
set_title title t =
    if t.disposed
    then (some tray_disposed, t)
    else (none, record t { title = title; events = t.events ++ title_event ∷ [] })

pub set_context_menu : Option ℕ → Tray → Option MenuError × Tray
set_context_menu menu t =
    if t.disposed
    then (some tray_disposed, t)
    else (none, record t { context_menu = menu; events = t.events ++ context_menu_event ∷ [] })

-- `Tray.Click`, with the store of menus.
pub click : Tray → (ℕ → Menu) → Option MenuError × (Tray × (ℕ → Menu))
click t menus =
    let clicked = record t { events = t.events ++ tray_click_event ∷ [] } in
    if t.disposed then (some tray_disposed, (t, menus)) else elim t.context_menu [
      | none ↦ (none, (clicked, menus))
      | some ref ↦
          let (failed, after) = popup [] (menus ref) in
          (failed, (clicked, λ k. if k == ref then after else menus k))
    ]

pub dispose_tray : Tray → Tray
dispose_tray t = record t { disposed = true; events = t.events ++ tray_dispose_event ∷ [] }
