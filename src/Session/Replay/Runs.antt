-- ===== src/Session/Replay/Runs.antt =====
-- Runs of calls of internal/session/session.go, and what their log tells.
use golectron.Prelude.{
  ◌≡◌, refl, ap, ◌∙◌, Bool, ◌||◌, Option, Option-cases, List, [], ◌∷◌, ◌++◌, inl, inr,
  Outcome-cases, if◌then◌else◌, if-elim,
}
use golectron.Text.{Text, codes, is_empty, trim_space}
use golectron.Dict.{empty}
use golectron.GlobalShortcut.Accelerator.{CaseTable}
use golectron.Session.{
  SessionError, Url, Cookie, ClearStorageOptions, Session, new_session, cookie_at, addition,
  delete_cookies, overwritten, cookie_key, cleared, normalize_cookie, origin_hosts, store_cookie,
  set_cookie, drop_cookies, delete_cookie, clear_storage_data, should_clear_storage, clear_cache,
}
use golectron.Session.Replay.{all_cookies, replay, IsJar, replay-++}
use golectron.Session.Replay.Jar.{put_cookie-IsJar, delete_cookies-IsJar}
use golectron.Session.Replay.Log.{replay-store, replay-delete_cookies}

-- A call of a client. The calls that a permission handler makes are calls of a client too.
pub data Call : Type 0 where
  set_cookie_call : Cookie → Call
  delete_cookie_call : Text → Text → Call
  clear_storage_call : ClearStorageOptions → Call
  clear_cache_call : Call

module _ (table : CaseTable) (parse : Text → Option Url) (equal_fold : Text → Text → Bool)
    {H : Type 0} where
  pub perform : Call → Session H → Session H
  perform (set_cookie_call c) s = (set_cookie table parse c s).1
  perform (delete_cookie_call url name) s = (delete_cookie table parse equal_fold url name s).1
  perform (clear_storage_call options) s = (clear_storage_data table parse equal_fold options s).1
  perform clear_cache_call s = clear_cache s

  pub run : List Call → Session H → Session H
  run [] s = s
  run (c ∷ cs) s = run cs (perform c s)

module _ (table : CaseTable) where
  -- The log of a session tells its cookies.
  record IsLogged {H : Type 0} (s : Session H) : Type 0 where
    jar : IsJar table s.cookies
    logged : replay table s.cookie_changes empty ≡ all_cookies s.cookies

module _ (table : CaseTable) (parse : Text → Option Url) {H : Type 0} where
  store_cookie-IsLogged :
      (c : Cookie) (s : Session H)
      → IsLogged table s
      → IsLogged table (store_cookie table parse c s)
  unfolding store_cookie
  store_cookie-IsLogged c s h =
      let new = overwritten (cookie_at (cookie_key table c) s.cookies) ++ addition c ∷ [] in
      record {
        jar = put_cookie-IsJar table c s.cookies h.jar;
        logged =
            replay-++ table s.cookie_changes new empty
            ∙ ap (replay table new) h.logged
            ∙ replay-store table c s.cookies h.jar;
      }

  drop_cookies-IsLogged :
      (matches : Cookie → Bool) (s : Session H)
      → IsLogged table s
      → IsLogged table (drop_cookies table parse matches s)
  unfolding drop_cookies
  drop_cookies-IsLogged matches s h =
      let gone = (delete_cookies matches s.cookies).1 in
      record {
        jar = delete_cookies-IsJar table matches s.cookies h.jar;
        logged =
            replay-++ table s.cookie_changes gone empty
            ∙ ap (replay table gone) h.logged
            ∙ replay-delete_cookies table matches s.cookies h.jar;
      }

  set_cookie-IsLogged :
      (c : Cookie) (s : Session H)
      → IsLogged table s
      → IsLogged table (set_cookie table parse c s).1
  unfolding set_cookie
  set_cookie-IsLogged c s h = elim (Outcome-cases (normalize_cookie table parse c)) [
    | inr (x, e) ↦ rw (e, set_cookie) h
    | inl (n, e) ↦ rw (e, set_cookie) (store_cookie-IsLogged n s h)
  ]

  module _ (equal_fold : Text → Text → Bool) where
    delete_cookie-IsLogged :
        (url name : Text) (s : Session H)
        → IsLogged table s
        → IsLogged table (delete_cookie table parse equal_fold url name s).1
    unfolding delete_cookie
    delete_cookie-IsLogged url name s h = elim (Option-cases (parse url)) [
      | inl e ↦ rw (e, delete_cookie) h
      | inr (u, e) ↦
          rw (e, delete_cookie)
            (if-elim (λ (t : Option SessionError × Session H). IsLogged table t.1)
              (is_empty u.hostname || is_empty (trim_space name)) (λ _. h)
              (λ _. drop_cookies-IsLogged _ s h))
    ]

    clear_storage-IsLogged :
        (options : ClearStorageOptions) (s : Session H)
        → IsLogged table s
        → IsLogged table (clear_storage_data table parse equal_fold options s).1
    unfolding clear_storage_data
    clear_storage-IsLogged options s h =
        elim (Option-cases (origin_hosts table parse options.origins)) [
          | inl e ↦ rw (e, clear_storage_data) h
          | inr (hosts, e) ↦
              let dropped : IsLogged table (
                  if should_clear_storage equal_fold options.storages (codes "cookies")
                  then drop_cookies table parse (cleared table hosts) s
                  else s) =
                if-elim (IsLogged table)
                  (should_clear_storage equal_fold options.storages (codes "cookies"))
                  (λ _. drop_cookies-IsLogged (cleared table hosts) s h) (λ _. h) in
              rw (e, clear_storage_data) (record { jar = dropped.jar; logged = dropped.logged })
        ]

    perform-IsLogged :
        (c : Call) (s : Session H)
        → IsLogged table s
        → IsLogged table (perform table parse equal_fold c s)
    unfolding perform clear_cache
    perform-IsLogged (set_cookie_call c) s h = set_cookie-IsLogged c s h
    perform-IsLogged (delete_cookie_call url name) s h = delete_cookie-IsLogged url name s h
    perform-IsLogged (clear_storage_call options) s h = clear_storage-IsLogged options s h
    perform-IsLogged clear_cache_call s h = record { jar = h.jar; logged = h.logged }

    run-IsLogged :
        (cs : List Call) (s : Session H)
        → IsLogged table s
        → IsLogged table (run table parse equal_fold cs s)
    unfolding run
    run-IsLogged [] s h = h
    run-IsLogged (c ∷ cs) s h =
        run-IsLogged cs (perform table parse equal_fold c s) (perform-IsLogged c s h)

module _ (table : CaseTable) (parse : Text → Option Url) (equal_fold : Text → Text → Bool)
    (H : Type 0) where
  -- Whatever calls a new session gets: who replays its `CookieChanges` from no cookies at all,
  -- putting and deleting under the key of each cookie, comes to exactly the cookies that it has.
  pub replay-run :
      (cs : List Call) (partition : Text) (persistent : Bool)
      → let s = run table parse equal_fold cs (new_session {H = H} partition persistent) in
        replay table s.cookie_changes empty ≡ all_cookies s.cookies
  unfolding new_session replay IsJar cookie_at
  replay-run cs partition persistent =
      (run-IsLogged table parse equal_fold cs (new_session {H = H} partition persistent)
        (record { jar = tt; logged = refl })).logged
