-- ===== src/Session/Tests.antt =====
-- Runs of internal/session/session.go, and the theorems at concrete sessions.
use golectron.Prelude.{ℕ, ◌≡◌, true, false, Option, some, List, [], ◌∷◌}
use golectron.Text.{Text, codes, text_eq}
use golectron.Dict.{empty}
use golectron.GlobalShortcut.Accelerator.{CaseTable}
use golectron.Session.{Url, Cookie, new_session}
use golectron.Session.Replay.{replay, all_cookies}
use golectron.Session.Replay.Runs.{Call, set_cookie_call, delete_cookie_call, run, replay-run}

abbrev table : CaseTable
table = record { lower = λ c. c; upper = λ c. c }

abbrev site : Url
site = record {
  scheme = codes "https";
  host = codes "Site";
  hostname = codes "Site";
  text = codes "https://Site/";
}

abbrev parse : Text → Option Url
parse text = some site

abbrev biscuit : Cookie
biscuit = record {
  url = codes "https://Site";
  name = codes "a";
  value = codes "1";
  domain = [];
  path = [];
  secure = true;
  http_only = false;
  expires = 0;
}

abbrev calls : List Call
calls =
    set_cookie_call biscuit
    ∷ set_cookie_call (record biscuit { value = codes "2" })
    ∷ delete_cookie_call (codes "https://Site") (codes "a")
    ∷ []

replay-run_example :
    let s = run table parse text_eq calls (new_session {H = ℕ} (codes "p") false) in
    replay table s.cookie_changes empty ≡ all_cookies s.cookies
replay-run_example = replay-run table parse text_eq ℕ calls (codes "p") false
