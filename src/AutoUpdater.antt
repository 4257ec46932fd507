-- ===== src/AutoUpdater.antt =====
-- internal/autoupdater/updater.go: the feed of updates, and the steps from a check to an install.
-- `url.Parse` is the parameter `parse_url`, which gives the scheme and the host. The headers of a
-- feed are the list of the map's pairs, in any order.
pub mod Life
pub mod Tests
use golectron.Prelude.{
  Bool, true, false, not, ◌&&◌, ◌||◌, Option, none, some, List, [], ◌∷◌, ◌++◌, Outcome, ok, err,
  any, if◌then◌else◌,
}
use golectron.Text.{Text, codes, text_eq, is_empty, trim_space, contains_any}

pub data UpdaterError : Type 0 where
  invalid_url invalid_provider invalid_header feed_required not_downloaded : UpdaterError

pub record Feed : Type 0 where
  pub url : Text
  pub headers : List (Text × Text)
  pub provider : Text

pub record UpdateInfo : Type 0 where
  pub version : Text
  pub release_name : Text
  pub release_notes : Text
  pub downloaded : Bool

-- An `EventRecord`, with the field that its event sets.
pub data EventRecord : Type 0 where
  event_checking event_not_available : EventRecord
  event_available : UpdateInfo → EventRecord
  event_downloaded : UpdateInfo → EventRecord
  event_before_quit : UpdateInfo → EventRecord
  event_error : UpdaterError → EventRecord

pub record Updater : Type 0 where
  pub feed : Feed
  pub current : Text
  pub available : Option UpdateInfo
  pub downloaded : Option UpdateInfo
  pub events : List EventRecord

-- `New`; the feed is the zero value.
pub new : Text → Updater
new version = record {
  feed = record { url = []; headers = []; provider = [] };
  current = trim_space version;
  available = none;
  downloaded = none;
  events = [];
}

abbrev line_ends : Text
line_ends = 13 ∷ 10 ∷ []

abbrev key_stops : Text
key_stops = 13 ∷ 10 ∷ b':' ∷ []

pub bad_header : Text × Text → Bool
bad_header (key, value) =
    is_empty (trim_space key) || (contains_any key key_stops || contains_any value line_ends)

abbrev known_provider : Text → Bool
known_provider p =
    text_eq p (codes "squirrel") || (text_eq p (codes "nsis") || text_eq p (codes "msix"))

-- `SupportsProvider`
pub supports_provider : Text → Text → Bool
supports_provider provider target_os =
    let windows = text_eq target_os (codes "win32") || text_eq target_os (codes "windows") in
    if text_eq provider (codes "squirrel")
    then text_eq target_os (codes "darwin") || windows
    else if text_eq provider (codes "nsis")
    then windows
    else if text_eq provider (codes "msix")
    then windows
    else false

abbrev incomplete : Option (Text × Text) → Bool
incomplete none = true
incomplete (some (scheme, host)) = is_empty scheme || is_empty host

module _ (parse_url : Text → Option (Text × Text)) where
  pub normalize_feed : Feed → Outcome UpdaterError Feed
  normalize_feed f =
      let url = trim_space f.url in
      let provider = if is_empty f.provider then codes "squirrel" else f.provider in
      if incomplete (parse_url url)
      then err invalid_url
      else if not (known_provider provider)
      then err invalid_provider
      else if any bad_header f.headers
      then err invalid_header
      else ok (record f { url = url; provider = provider })

  pub set_feed_url : Feed → Updater → Option UpdaterError × Updater
  set_feed_url f u = elim (normalize_feed f) [
    | err e ↦ (some e, u)
    | ok normal ↦ (none, record u { feed = normal })
  ]

abbrev log : EventRecord → Updater → Updater
log e u = record u { events = u.events ++ e ∷ [] }

-- No remote release, or none that is newer: its version is missing or the current one.
pub nothing_new : Option UpdateInfo → Text → Bool
nothing_new none current = true
nothing_new (some info) current =
    is_empty (trim_space info.version) || text_eq (trim_space info.version) current

abbrev trimmed : UpdateInfo → UpdateInfo
trimmed info = record info {
  version = trim_space info.version;
  release_name = trim_space info.release_name;
}

-- The end of `CheckForUpdates`, once it has logged that it checks.
pub offer : Option UpdateInfo → Updater → Outcome UpdaterError Bool × Updater
offer none u = (ok false, log event_not_available u)
offer (some info) u =
    if nothing_new (some info) u.current then (ok false, log event_not_available u) else (
      ok true,
      record u {
        available = some (trimmed info);
        events = u.events ++ event_available (trimmed info) ∷ [];
      },
    )

pub check_for_updates : Option UpdateInfo → Updater → Outcome UpdaterError Bool × Updater
check_for_updates remote u =
    if is_empty (trim_space u.feed.url)
    then (err feed_required, log (event_error feed_required) u)
    else offer remote (log event_checking u)

abbrev fetched : UpdateInfo → UpdateInfo
fetched info = record info { downloaded = true }

pub download_update : Updater → Option UpdaterError × Updater
download_update u = elim u.available [
  | none ↦ (some not_downloaded, log (event_error not_downloaded) u)
  | some info ↦ (
    none,
    record u {
      downloaded = some (fetched info);
      events = u.events ++ event_downloaded (fetched info) ∷ [];
    },
  )
]

pub quit_and_install : Updater → Option UpdaterError × Updater
quit_and_install u = elim u.downloaded [
  | none ↦ (some not_downloaded, log (event_error not_downloaded) u)
  | some info ↦ (none, log (event_before_quit info) u)
]

pub data Call : Type 0 where
  set_feed_url_call : Feed → Call
  check_call : Option UpdateInfo → Call
  download_call quit_call : Call

module _ (parse_url : Text → Option (Text × Text)) where
  pub perform : Call → Updater → Updater
  perform (set_feed_url_call f) u = (set_feed_url parse_url f u).1
  perform (check_call remote) u = (check_for_updates remote u).1
  perform download_call u = (download_update u).1
  perform quit_call u = (quit_and_install u).1

  pub run : List Call → Updater → Updater
  run [] u = u
  run (c ∷ cs) u = run cs (perform c u)
