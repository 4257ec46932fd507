-- ===== src/Session.antt =====
-- internal/session/session.go: the cookies, the permissions and the storage of a session.
-- `url.Parse` is the parameter `parse`, `strings.EqualFold` the parameter `equal_fold`, and the case
-- of runes beyond ASCII a `CaseTable`. The map of cookies is the list of its entries, in the order in
-- which Go ranges over it. A permission handler is a value of `H`, called by `call`; it may change
-- the session and the world `W` around it. An expiry time is a number that is only carried along, as
-- are the details of a request, and the handler of webauthn.go beside it is left out.
pub mod Replay
pub mod Registry
pub mod Tests
use golectron.Prelude.{
  ℕ, Bool, true, false, not, ◌&&◌, ◌||◌, ◌==◌, Option, none, some, List, [], ◌∷◌, ◌++◌, map, any,
  Outcome, ok, err, if◌then◌else◌,
}
use golectron.Text.{Text, codes, text_eq, is_empty, trim_space, contains_any}
use golectron.GlobalShortcut.Accelerator.{CaseTable, to_lower}

pub data SessionError : Type 0 where
  invalid_partition invalid_cookie permission_denied unsupported_clear_option : SessionError

pub record Url : Type 0 where
  pub scheme : Text
  pub host : Text
  pub hostname : Text
  pub text : Text

pub record PermissionRequest : Type 0 where
  pub requesting_url : Text
  pub permission : Text
  pub details : List (Text × Text)

pub data CookieChangeCause : Type 0 where
  explicit overwrite expired : CookieChangeCause

pub record Cookie : Type 0 where
  pub url : Text
  pub name : Text
  pub value : Text
  pub domain : Text
  pub path : Text
  pub secure : Bool
  pub http_only : Bool
  pub expires : ℕ

pub record CookieChange : Type 0 where
  pub cookie : Cookie
  pub removed : Bool
  pub cause : CookieChangeCause

pub record ClearStorageOptions : Type 0 where
  pub storages : List Text
  pub origins : List Text
  pub quotas : List Text

abbrev pub Cookies : Type 0
Cookies = List (Text × Cookie)

pub record Session (H : Type 0) : Type 0 where
  pub partition : Text
  pub persistent : Bool
  pub permission_handler : Option H
  pub permission_check : Option H
  pub cookies : Cookies
  pub cookie_changes : List CookieChange
  pub cache_cleared : Bool
  pub storage_clears : List ClearStorageOptions

pub new_session : {H : Type 0} → Text → Bool → Session H
new_session partition persistent = record {
  partition = partition;
  persistent = persistent;
  permission_handler = none;
  permission_check = none;
  cookies = [];
  cookie_changes = [];
  cache_cleared = false;
  storage_clears = [];
}

-- `s.cookies[key]` and `s.cookies[key] = cookie`
pub cookie_at : Text → Cookies → Option Cookie
cookie_at key [] = none
cookie_at key ((k, c) ∷ rest) = if text_eq k key then some c else cookie_at key rest

pub put_cookie : Text → Cookie → Cookies → Cookies
put_cookie key c [] = (key, c) ∷ []
put_cookie key c ((k, old) ∷ rest) =
    let later = put_cookie key c rest in if text_eq k key then (k, c) ∷ rest else (k, old) ∷ later

abbrev pub removal : CookieChangeCause → Cookie → CookieChange
removal cause c = record { cookie = c; removed = true; cause = cause }

abbrev pub addition : Cookie → CookieChange
addition c = record { cookie = c; removed = false; cause = explicit }

-- The loop that deletes the cookies that match: the cookies left, and the changes it logs.
pub delete_cookies : (Cookie → Bool) → Cookies → Cookies × List CookieChange
delete_cookies matches [] = ([], [])
delete_cookies matches ((k, c) ∷ rest) =
    let later = delete_cookies matches rest in
    if matches c then (later.0, removal explicit c ∷ later.1) else ((k, c) ∷ later.0, later.1)

abbrev pub overwritten : Option Cookie → List CookieChange
overwritten none = []
overwritten (some old) = removal overwrite old ∷ []

-- `strings.TrimPrefix(domain, ".")`
abbrev pub trim_dot : Text → Text
trim_dot [] = []
trim_dot (c ∷ s) = if c == b'.' then s else c ∷ s

pub should_clear_storage : (Text → Text → Bool) → List Text → Text → Bool
should_clear_storage equal_fold [] target = true
should_clear_storage equal_fold (t ∷ ts) target =
    any (λ u. equal_fold (trim_space u) target) (t ∷ ts)

module _ (table : CaseTable) where
  abbrev lower : Text → Text
  lower s = map (to_lower table) s

  pub cookie_key : Cookie → Text
  cookie_key c = lower c.domain ++ 0 ∷ c.path ++ 0 ∷ c.name

  -- Whether `ClearStorageData` deletes a cookie, for the hosts of its origins.
  abbrev pub cleared : List Text → Cookie → Bool
  cleared [] c = true
  cleared (h ∷ hs) c = any (text_eq (trim_dot (lower c.domain))) (h ∷ hs)

  module _ (parse : Text → Option Url) where
    -- The end of `normalizeCookie`, for the URL that was parsed.
    pub cookie_for : Url → Cookie → Outcome SessionError Cookie
    cookie_for u c =
        if c.secure && not (text_eq u.scheme (codes "https"))
        then err invalid_cookie
        else ok (record c {
          domain = if is_empty c.domain then lower u.hostname else lower (trim_space c.domain);
          path = if is_empty c.path then codes "/" else c.path;
          url = u.text;
        })

    pub normalize_cookie : Cookie → Outcome SessionError Cookie
    normalize_cookie c =
        if is_empty (trim_space c.name) || contains_any c.name (b';' ∷ 13 ∷ 10 ∷ [])
        then err invalid_cookie
        else elim (parse c.url) [
          | none ↦ err invalid_cookie
          | some u ↦ if is_empty u.hostname then err invalid_cookie else cookie_for u c
        ]

    -- The hosts of the origins that `ClearStorageData` is given.
    pub origin_hosts : List Text → Option (List Text)
    origin_hosts [] = some []
    origin_hosts (origin ∷ rest) =
        let later = origin_hosts rest in
        elim (parse origin) [
          | none ↦ none
          | some u ↦
              if is_empty u.scheme || is_empty u.host
              then none
              else elim later [ none ↦ none | some hosts ↦ some (lower u.hostname ∷ hosts) ]
        ]

    module _ {H : Type 0} where
      -- The end of `SetCookie`, for a normalized cookie.
      pub store_cookie : Cookie → Session H → Session H
      store_cookie c s = record s {
        cookies = put_cookie (cookie_key c) c s.cookies;
        cookie_changes =
            s.cookie_changes
            ++ (overwritten (cookie_at (cookie_key c) s.cookies) ++ addition c ∷ []);
      }

      pub set_cookie : Cookie → Session H → Option SessionError × Session H
      set_cookie c s = elim (normalize_cookie c) [
        | err e ↦ (some e, s)
        | ok normalized ↦ (none, store_cookie normalized s)
      ]

      -- Deletes the cookies that match, and logs it.
      pub drop_cookies : (Cookie → Bool) → Session H → Session H
      drop_cookies matches s =
          let (left, changes) = delete_cookies matches s.cookies in
          record s { cookies = left; cookie_changes = s.cookie_changes ++ changes }

      module _ (equal_fold : Text → Text → Bool) where
        pub delete_cookie : Text → Text → Session H → Option SessionError × Session H
        delete_cookie target_url name s = elim (parse target_url) [
          | none ↦ (some invalid_cookie, s)
          | some u ↦
              if is_empty u.hostname || is_empty (trim_space name)
              then (some invalid_cookie, s)
              else (
                none,
                drop_cookies
                    (λ c. text_eq c.name name && equal_fold (trim_dot c.domain) (lower u.hostname))
                    s,
              )
        ]

        pub clear_storage_data : ClearStorageOptions → Session H → Option SessionError × Session H
        clear_storage_data options s = elim (origin_hosts options.origins) [
          | none ↦ (some unsupported_clear_option, s)
          | some hosts ↦
              let s' =
                if should_clear_storage equal_fold options.storages (codes "cookies")
                then drop_cookies (cleared hosts) s
                else s in
              (
                none,
                record s' {
                  storage_clears = s'.storage_clears ++ record options { quotas = [] } ∷ [];
                },
              )
        ]

pub clear_cache : {H : Type 0} → Session H → Session H
clear_cache s = record s { cache_cleared = true }

pub set_permission_request_handler : {H : Type 0} → Option H → Session H → Session H
set_permission_request_handler h s = record s { permission_handler = h }

pub set_permission_check_handler : {H : Type 0} → Option H → Session H → Session H
set_permission_check_handler h s = record s { permission_check = h }

module _ {H W : Type 0}
    (call : H → PermissionRequest → W × Session H → Bool × (W × Session H)) where
  pub check_permission : PermissionRequest → W × Session H → Bool × (W × Session H)
  check_permission req (w, s) = elim s.permission_check [
    | some h ↦ call h req (w, s)
    | none ↦ elim s.permission_handler [ none ↦ (false, (w, s)) | some h ↦ call h req (w, s) ]
  ]

  abbrev allowed : Bool → Option SessionError
  allowed b = if b then none else some permission_denied

  pub request_permission : PermissionRequest → W × Session H → Option SessionError × (W × Session H)
  request_permission req (w, s) = elim s.permission_handler [
    | some h ↦ let (granted, after) = call h req (w, s) in (allowed granted, after)
    | none ↦ let (granted, after) = check_permission req (w, s) in (allowed granted, after)
  ]
