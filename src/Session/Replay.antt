-- ===== src/Session/Replay.antt =====
-- The cookies and the change log of internal/session/session.go: what a reader of the log makes of
-- it, and that the log tells the cookies.
pub mod Jar
pub mod Log
pub mod Runs
use golectron.Prelude.{
  ◌≡◌, refl, sym, ap, ◌∙◌, subst, Bool, true, false, not, ◌&&◌, ◌||◌, Bool-cases, Option, none,
  some, Option-cases, List, [], ◌∷◌, ◌++◌, inl, inr, Outcome, ok, err, Outcome-cases, if◌then◌else◌,
  if-elim, any,
}
use golectron.Text.{Text, text_eq, text_eq_iff, text_eq_refl, text_eq_sym}
use golectron.Dict.{Dict, empty, put, delete}
use golectron.GlobalShortcut.Accelerator.{CaseTable}
use golectron.Session.{
  SessionError, Url, Cookie, CookieChange, ClearStorageOptions, Cookies, Session, new_session,
  cookie_at, put_cookie, removal, addition, explicit, delete_cookies, overwritten, cookie_key,
  cleared, normalize_cookie, origin_hosts, store_cookie, set_cookie, drop_cookies, delete_cookie,
  clear_storage_data, should_clear_storage, clear_cache,
}

abbrev pub all_cookies : Cookies → Dict Cookie
all_cookies jar = λ key. cookie_at key jar

module _ (table : CaseTable) where
  -- What a reader of the log makes of one change, and of the log.
  pub replay_change : CookieChange → Dict Cookie → Dict Cookie
  replay_change change d =
      if change.removed
      then delete (cookie_key table change.cookie) d
      else put (cookie_key table change.cookie) change.cookie d

  pub replay : List CookieChange → Dict Cookie → Dict Cookie
  replay [] d = d
  replay (change ∷ changes) d = replay changes (replay_change change d)

  -- Every cookie is stored under its own key, and no key twice.
  pub IsJar : Cookies → Type 0
  IsJar [] = Unit
  IsJar ((k, c) ∷ rest) = (k ≡ cookie_key table c) × (cookie_at k rest ≡ none) × IsJar rest

  pub replay-++ :
      (xs ys : List CookieChange) (d : Dict Cookie) → replay (xs ++ ys) d ≡ replay ys (replay xs d)
  unfolding replay
  replay-++ [] ys d = refl
  replay-++ (x ∷ xs) ys d = replay-++ xs ys (replay_change x d)
