-- ===== src/AutoUpdater/Life.antt =====
-- The order of the events of internal/autoupdater/updater.go, as a step relation.
use golectron.Prelude.{
  ◌≡◌, refl, true, false, Option, none, some, List, [], ◌∷◌, ◌++◌, append_assoc, ok,
}
use golectron.Text.{Text, is_empty, trim_space}
use golectron.AutoUpdater.{
  UpdateInfo, UpdaterError, EventRecord, event_checking, event_not_available, event_available,
  event_downloaded, event_before_quit, event_error, Updater, nothing_new, trimmed, offer,
  check_for_updates, fetched, download_update, quit_and_install,
}

-- Where an updater stands: the release on offer, and the one that was fetched.
pub record Stage : Type 0 where
  pub offered : Option UpdateInfo
  pub ready : Option UpdateInfo

-- The events that an updater of the version `current` may log: it offers only a release of another
-- version, fetches only the release on offer, and quits only for the release it fetched.
pub data Step (current : Text) : Stage → EventRecord → Stage → Type 0 where
  checks : (s : Stage) → Step current s event_checking s
  rejects : (s : Stage) → Step current s event_not_available s
  fails : (s : Stage) (e : UpdaterError) → Step current s (event_error e) s
  offers :
      (s : Stage) (i : UpdateInfo)
      → nothing_new (some i) current ≡ false
      → Step current s (event_available (trimmed i)) (record s { offered = some (trimmed i) })
  fetches :
      (s : Stage) (i : UpdateInfo)
      → s.offered ≡ some i
      → Step current s (event_downloaded (fetched i)) (record s { ready = some (fetched i) })
  quits : (s : Stage) (i : UpdateInfo) → s.ready ≡ some i → Step current s (event_before_quit i) s

-- The logs that lead from nothing to a stage.
pub data Trace (current : Text) : List EventRecord → Stage → Type 0 where
  start : Trace current [] (record { offered = none; ready = none })
  next :
      (es : List EventRecord) (s t : Stage) (e : EventRecord)
      → Trace current es s
      → Step current s e t
      → Trace current (es ++ e ∷ []) t

abbrev pub stage : Updater → Stage
stage u = record { offered = u.available; ready = u.downloaded }

pub record IsTraced (u : Updater) : Type 0 where
  pub traced : Trace u.current u.events (stage u)

-- Where a feed is set and the remote release is new, a check, a download and an install succeed one
-- after the other, and log the four events of that release, trimmed, in their order.
pub check-download-quit :
    (i : UpdateInfo) (u : Updater)
    → is_empty (trim_space u.feed.url) ≡ false
    → nothing_new (some i) u.current ≡ false
    → let v = (check_for_updates (some i) u).1 in
      let w = (download_update v).1 in
      ((check_for_updates (some i) u).0 ≡ ok true)
      × ((download_update v).0 ≡ none)
      × ((quit_and_install w).0 ≡ none)
      × ((quit_and_install w).1.events
          ≡ u.events
            ++ event_checking
              ∷ event_available (trimmed i)
              ∷ event_downloaded (fetched (trimmed i))
              ∷ event_before_quit (fetched (trimmed i))
              ∷ [])
unfolding check_for_updates offer download_update quit_and_install
check-download-quit i u f n = rw (f, n) (refl, refl, refl, simp append_assoc)
