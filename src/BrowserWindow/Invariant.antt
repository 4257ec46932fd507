-- ===== src/BrowserWindow/Invariant.antt =====
-- What holds of a window after any calls, those of its own event handlers included.
use golectron.Prelude.{◌≡◌, true, false, Option, none}
use golectron.Text.{Text}
use golectron.BrowserWindow.{WindowError, EventContext, Window, validate_rect}

-- A window that is neither maximized nor full screen has its normal bounds; the sizes are
-- positive; a closed window is not shown.
pub record IsSound {H : Type 0} (w : Window H) : Type 0 where
  pub normal_bounds : w.maximized ≡ false → w.fullscreen ≡ false → w.normal ≡ w.bounds
  pub bounds_valid : validate_rect w.bounds ≡ none
  pub normal_valid : validate_rect w.normal ≡ none
  pub closed_hidden : w.closed ≡ true → w.visible ≡ false

module _ {H : Type 0} (call : H → EventContext → Window H → EventContext × Window H)
    (keeps : (h : H) (ctx : EventContext) (w : Window H)
      → IsSound w
      → IsSound (call h ctx w).1) where
  abbrev Sound : Option WindowError × Window H → Type 0
  Sound r = IsSound r.1
