-- ===== src/Notification.antt =====
-- internal/notification/notification.go: a desktop notification, its event log, and the history of
-- notifications. The getters' copies of slices have no counterpart, since values are never shared.
pub mod Normal
pub mod Life
pub mod History
pub mod Tests
use golectron.Prelude.{
  ℕ, ℤ, pos, negsuc, Bool, true, false, not, ◌&&◌, ◌||◌, Option, none, some, List, [], ◌∷◌, ◌++◌,
  Outcome, ok, err, length, ltb, if◌then◌else◌,
}
use golectron.Text.{Text, codes, text_eq, is_empty, trim_space}

pub data NotificationError : Type 0 where
  title_required urgency_unknown : NotificationError
  action_type_unknown action_text_required choices_required : NotificationError
  action_index_out_of_range reply_disabled notification_closed : NotificationError

pub record Action : Type 0 where
  pub type : Text
  pub text : Text
  pub placeholder : Text
  pub choices : List Text

pub record Options : Type 0 where
  pub title : Text
  pub subtitle : Text
  pub body : Text
  pub silent : Bool
  pub icon : Text
  pub urgency : Text
  pub id : Text
  pub group_id : Text
  pub group_title : Text
  pub actions : List Action
  pub reply_placeholder : Text
  pub has_reply : Bool
  pub unsigned_app : Bool

pub data FailReason : Type 0 where
  unsigned already_closed : FailReason

-- An `EventRecord`, with the field that its event sets.
pub data EventRecord : Type 0 where
  event_show event_click : EventRecord
  event_close : Text → EventRecord
  event_reply : Text → EventRecord
  event_action : ℕ → EventRecord
  event_failed : FailReason → EventRecord

pub record Notification : Type 0 where
  pub options : Options
  pub shown : Bool
  pub closed : Bool
  pub events : List EventRecord

abbrev known_type : Text → Bool
known_type t =
    text_eq t (codes "button") || (text_eq t (codes "text") || text_eq t (codes "dropdown"))

abbrev known_urgency : Text → Bool
known_urgency u =
    text_eq u (codes "low") || (text_eq u (codes "normal") || text_eq u (codes "critical"))

abbrev no_choices : List Text → Bool
no_choices [] = true
no_choices (c ∷ cs) = false

-- `value` where the field is empty
abbrev or_else : Text → Text → Text
or_else [] value = value
or_else (c ∷ s) value = c ∷ s

-- One round of the loop of `normalizeActions`.
pub normalize_action : Action → Outcome NotificationError Action
normalize_action a =
    let type = or_else a.type (codes "button") in
    let text = trim_space a.text in
    if not (known_type type)
    then err action_type_unknown
    else if is_empty text
    then err action_text_required
    else if text_eq type (codes "dropdown") && no_choices a.choices
    then err choices_required
    else ok (record a { type = type; text = text; placeholder = trim_space a.placeholder })

pub normalize_actions : List Action → Outcome NotificationError (List Action)
normalize_actions [] = ok []
normalize_actions (a ∷ rest_actions) = elim (normalize_action a) [
  | err e ↦ err e
  | ok normalized ↦ elim (normalize_actions rest_actions) [
    | err e ↦ err e
    | ok rest ↦ ok (normalized ∷ rest)
  ]
]

pub normalize_options : Options → Outcome NotificationError Options
normalize_options o =
    let urgency = or_else o.urgency (codes "normal") in
    if is_empty (trim_space o.title)
    then err title_required
    else if not (known_urgency urgency)
    then err urgency_unknown
    else elim (normalize_actions o.actions) [
      | err e ↦ err e
      | ok actions ↦ ok (record o {
        title = trim_space o.title;
        subtitle = trim_space o.subtitle;
        id = trim_space o.id;
        group_id = trim_space o.group_id;
        group_title = trim_space o.group_title;
        reply_placeholder = trim_space o.reply_placeholder;
        urgency = urgency;
        actions = actions;
      })
    ]

pub new : Options → Outcome NotificationError Notification
new o = elim (normalize_options o) [
  | err e ↦ err e
  | ok normalized ↦ ok (record { options = normalized; shown = false; closed = false; events = [] })
]

abbrev log : EventRecord → Notification → Notification
log e n = record n { events = n.events ++ e ∷ [] }

pub show : Notification → Notification
show n =
    if n.options.unsigned_app
    then log (event_failed unsigned) n
    else if n.closed
    then log (event_failed already_closed) n
    else record n { shown = true; events = n.events ++ event_show ∷ [] }

pub click : Notification → Notification
click n = if n.shown && not n.closed then log event_click n else n

-- `!n.shown || n.closed`
abbrev unavailable : Notification → Bool
unavailable n = not n.shown || n.closed

pub activate_action : ℤ → Notification → Option NotificationError × Notification
activate_action (negsuc i) n =
    if unavailable n then (some notification_closed, n) else (some action_index_out_of_range, n)
activate_action (pos i) n =
    if unavailable n
    then (some notification_closed, n)
    else if not (ltb i (length n.options.actions))
    then (some action_index_out_of_range, n)
    else (none, log (event_action i) n)

pub reply : Text → Notification → Option NotificationError × Notification
reply answer n =
    if unavailable n
    then (some notification_closed, n)
    else if not n.options.has_reply
    then (some reply_disabled, n)
    else (none, log (event_reply answer) n)

pub close : Text → Notification → Notification
close reason n = if n.closed then n else record n {
  closed = true;
  events = n.events ++ event_close (or_else reason (codes "unknown")) ∷ [];
}

pub data Call : Type 0 where
  show_call click_call : Call
  activate_action_call : ℤ → Call
  reply_call : Text → Call
  close_call : Text → Call

pub perform : Call → Notification → Notification
perform show_call n = show n
perform click_call n = click n
perform (activate_action_call i) n = (activate_action i n).1
perform (reply_call t) n = (reply t n).1
perform (close_call r) n = close r n

pub run : List Call → Notification → Notification
run [] n = n
run (c ∷ cs) n = run cs (perform c n)
