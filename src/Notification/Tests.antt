-- ===== src/Notification/Tests.antt =====
-- Runs of internal/notification/notification.go, and the theorems at concrete notifications.
use golectron.Prelude.{◌≡◌, refl, true, false, pos, [], ◌∷◌, ok}
use golectron.Text.{codes, text_eq, is_space, trim_left, trim_right, trim_space}
use golectron.Notification.{
  Options, Notification, normalize_action, normalize_actions, normalize_options, new, show_call,
  click_call, activate_action_call, close_call, run,
}
use golectron.Notification.Life.{IsConsistent, run-new-IsConsistent}
use golectron.Notification.History.{History}

abbrev given : Options
given = record {
  title = codes " Hi";
  subtitle = [];
  body = codes "x";
  silent = false;
  icon = [];
  urgency = [];
  id = codes "a ";
  group_id = [];
  group_title = [];
  actions = record { type = []; text = codes "Open "; placeholder = []; choices = [] } ∷ [];
  reply_placeholder = [];
  has_reply = true;
  unsigned_app = false;
}

abbrev normal : Options
normal = record given {
  title = codes "Hi";
  urgency = codes "normal";
  id = codes "a";
  actions =
      record { type = codes "button"; text = codes "Open"; placeholder = []; choices = [] } ∷ [];
}

given_normal : normalize_options given ≡ ok normal
unfolding normalize_options normalize_actions normalize_action trim_space trim_left trim_right
    is_space text_eq
given_normal = refl

abbrev made : Notification
made = record { options = normal; shown = false; closed = false; events = [] }

new_accepted : new given ≡ ok made
unfolding new normalize_options normalize_actions normalize_action trim_space trim_left trim_right
    is_space text_eq
new_accepted = refl

run-new-IsConsistent_example : IsConsistent (
    run
      (click_call ∷ show_call ∷ activate_action_call (pos 0) ∷ close_call [] ∷ click_call ∷ [])
      made)
run-new-IsConsistent_example =
    run-new-IsConsistent given made
      (click_call ∷ show_call ∷ activate_action_call (pos 0) ∷ close_call [] ∷ click_call ∷ [])
      new_accepted

abbrev past : History
past = record { items = normal ∷ normal ∷ [] }
