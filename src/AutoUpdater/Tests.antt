-- ===== src/AutoUpdater/Tests.antt =====
-- Runs of internal/autoupdater/updater.go, and the theorems at a concrete updater.
use golectron.Prelude.{◌≡◌, refl, false, Option, none, some, []}
use golectron.Text.{Text, codes, text_eq, is_empty, is_space, trim_left, trim_right, trim_space}
use golectron.AutoUpdater.{UpdateInfo, Updater, nothing_new}

-- Every address has one scheme and one host.
abbrev split_url : Text → Option (Text × Text)
split_url t = some (codes "https", codes "h")

abbrev release : UpdateInfo
release = record { version = codes " 2"; release_name = []; release_notes = []; downloaded = false }

abbrev fed : Updater
fed = record {
  feed = record { url = codes "https://h"; headers = []; provider = codes "nsis" };
  current = codes "1";
  available = none;
  downloaded = none;
  events = [];
}

fed_feed : is_empty (trim_space fed.feed.url) ≡ false
unfolding trim_space trim_left trim_right is_space
fed_feed = refl

release_new : nothing_new (some release) fed.current ≡ false
unfolding nothing_new trim_space trim_left trim_right is_space text_eq
release_new = refl
