-- ===== src/Protocol.antt =====
-- internal/protocol/registry.go: custom schemes, their privileges and their handlers. `H` is the
-- type of responders; what a responder answers is the parameter `respond`. The lower and upper case
-- of a rune beyond ASCII are Unicode's, in a `CaseTable`. The headers of a request or a response are
-- the list of their names with their values.
pub mod Privileged
pub mod Handled
pub mod Lifetime
pub mod Tests
use golectron.Prelude.{
  ℕ, ℤ, pos, negsuc, Bool, true, false, not, ◌&&◌, ◌||◌, Option, none, some, List, [], ◌∷◌, ◌++◌,
  ◌⊎◌, inl, inr, map, Outcome, ok, err, any, all, ltb, leb, ◌==◌, if◌then◌else◌,
}
use golectron.Text.{Text, codes, text_eq, is_empty, trim_space, trim_suffix, contains_any}
use golectron.Dict.{Dict, empty, put, delete, has}
use golectron.GlobalShortcut.Accelerator.{CaseTable, to_lower, to_upper}

pub data ProtocolError : Type 0 where
  invalid_scheme allow_extensions_not_standard already_registered registry_locked : ProtocolError
  handler_kind_required not_registered responder_required : ProtocolError
  invalid_status_code invalid_header_name invalid_header_value : ProtocolError

pub record Privileges : Type 0 where
  pub standard : Bool
  pub secure : Bool
  pub bypass_csp : Bool
  pub support_fetch_api : Bool
  pub cors_enabled : Bool
  pub stream : Bool
  pub allow_service_workers : Bool
  pub allow_extensions : Bool

pub record SchemePrivilege : Type 0 where
  pub scheme : Text
  pub privileges : Privileges

abbrev pub Headers : Type 0
Headers = List (Text × List Text)

pub record Request : Type 0 where
  pub url : Text
  pub method : Text
  pub headers : Headers

pub record Response : Type 0 where
  pub status_code : ℤ
  pub headers : Headers
  pub body : List ℕ

pub record Handler (H : Type 0) : Type 0 where
  pub kind : Text
  pub responder : Option H

pub record Registry (H : Type 0) : Type 0 where
  pub locked : Bool
  pub privileges : Dict Privileges
  pub handlers : Dict (Handler H)

pub new_registry : {H : Type 0} → Registry H
new_registry = record { locked = false; privileges = empty; handlers = empty }

abbrev is_lower_letter : ℕ → Bool
is_lower_letter c = leb b'a' c && leb c b'z'

abbrev scheme_rune : ℕ → Bool
scheme_rune c =
    is_lower_letter c || (leb b'0' c && leb c b'9') || c == b'+' || c == b'.' || c == b'-'

-- `schemePattern`
pub matches_scheme : Text → Bool
matches_scheme [] = false
matches_scheme (c ∷ s) = is_lower_letter c && all scheme_rune s

pub normalize_scheme : CaseTable → Text → Outcome ProtocolError Text
normalize_scheme table scheme =
    let normalized = trim_suffix (trim_space scheme) b':' in
    if is_empty normalized
      || (not (text_eq normalized (map (to_lower table) normalized))
          || not (matches_scheme normalized))
    then err invalid_scheme
    else ok normalized

abbrev bad_header_name : Text → Bool
bad_header_name name = is_empty (trim_space name) || contains_any name (b':' ∷ 13 ∷ 10 ∷ [])

abbrev bad_header_value : Text → Bool
bad_header_value value = contains_any value (13 ∷ 10 ∷ [])

-- The loop of `ValidateResponse` over the headers.
pub validate_headers : Headers → Option ProtocolError
validate_headers [] = none
validate_headers ((name, values) ∷ rest) =
    let later = validate_headers rest in
    if bad_header_name name
    then some invalid_header_name
    else if any bad_header_value values
    then some invalid_header_value
    else later

-- `StatusCode < 100 || StatusCode > 599`
abbrev bad_status : ℤ → Bool
bad_status (pos n) = ltb n 100 || ltb 599 n
bad_status (negsuc n) = true

pub validate_response : Response → Option ProtocolError
validate_response r =
    if bad_status r.status_code then some invalid_status_code else validate_headers r.headers

-- The text in front of the first `:`, or all of it.
pub before_colon : Text → Text
before_colon [] = []
before_colon (c ∷ s) = if c == b':' then [] else c ∷ before_colon s

module _ (table : CaseTable) {H : Type 0} where
  -- The loop of `RegisterSchemesAsPrivileged`: at an error it stops, with what it has registered.
  pub register_schemes : List SchemePrivilege → Registry H → Option ProtocolError × Registry H
  register_schemes [] r = (none, r)
  register_schemes (s ∷ ss) r = elim (normalize_scheme table s.scheme) [
    | err e ↦ (some e, r)
    | ok name ↦
        if has (r.privileges name)
        then (some already_registered, r)
        else if s.privileges.allow_extensions && not s.privileges.standard
        then (some allow_extensions_not_standard, r)
        else register_schemes ss (record r { privileges = put name s.privileges r.privileges })
  ]

  pub register_schemes_as_privileged :
      List SchemePrivilege → Registry H → Option ProtocolError × Registry H
  register_schemes_as_privileged schemes r =
      if r.locked then (some registry_locked, r) else register_schemes schemes r

  pub lock_privileges : Registry H → Registry H
  lock_privileges r = record r { locked = true }

  pub privileges_for : Text → Registry H → Option Privileges
  privileges_for scheme r = elim (normalize_scheme table scheme) [
    | err e ↦ none
    | ok name ↦ r.privileges name
  ]

  pub register_handler : Text → Handler H → Registry H → Option ProtocolError × Registry H
  register_handler scheme handler r = elim (normalize_scheme table scheme) [
    | err e ↦ (some e, r)
    | ok name ↦
        if is_empty handler.kind
        then (some handler_kind_required, r)
        else if has (r.handlers name)
        then (some already_registered, r)
        else (none, record r { handlers = put name handler r.handlers })
  ]

  pub is_protocol_handled : Text → Registry H → Bool
  is_protocol_handled scheme r = elim (normalize_scheme table scheme) [
    | err e ↦ false
    | ok name ↦ has (r.handlers name)
  ]

  pub unregister_protocol : Text → Registry H → Option ProtocolError × Registry H
  unregister_protocol scheme r = elim (normalize_scheme table scheme) [
    | err e ↦ (some e, r)
    | ok name ↦
        if not (has (r.handlers name))
        then (some not_registered, r)
        else (none, record r { handlers = delete name r.handlers })
  ]

  module _ {X : Type 0} (respond : H → Request → Outcome X Response) where
    abbrev checked : Option ProtocolError → Response → Outcome (ProtocolError ⊎ X) Response
    checked none response = ok response
    checked (some e) response = err (inl e)

    -- The end of `Dispatch`, with the responder's answer.
    pub dispatch_answer : Outcome X Response → Outcome (ProtocolError ⊎ X) Response
    dispatch_answer (err x) = err (inr x)
    dispatch_answer (ok response) = checked (validate_response response) response

    -- The request that the responder gets.
    pub handed : Request → Request
    handed req = record req { method = map (to_upper table) (trim_space req.method) }

    pub dispatch : Request → Registry H → Outcome (ProtocolError ⊎ X) Response
    dispatch req r = elim (normalize_scheme table (before_colon req.url)) [
      | err e ↦ err (inl e)
      | ok name ↦ elim (r.handlers name) [
        | none ↦ err (inl not_registered)
        | some handler ↦ elim handler.responder [
          | none ↦ err (inl responder_required)
          | some h ↦ dispatch_answer (respond h (handed req))
        ]
      ]
    ]
