-- ===== src/Protocol/Tests.antt =====
-- Runs of internal/protocol/registry.go, and the theorems at concrete registries.
use golectron.Prelude.{
  ℕ, pos, ◌≡◌, ◌≢◌, List, map, refl, true, false, none, some, [], ◌∷◌, inl, Outcome, ok, err,
}
use golectron.Text.{codes, text_eq, is_space, trim_left, trim_right, trim_space, trim_suffix}
use golectron.Dict.{put}
use golectron.GlobalShortcut.Accelerator.{CaseTable, to_lower, to_upper}
use golectron.Protocol.{
  not_registered, SchemePrivilege, Request, Response, Handler, Registry, matches_scheme,
  normalize_scheme, validate_headers, validate_response, before_colon, register_handler,
  is_protocol_handled, unregister_protocol, dispatch_answer, handed, dispatch,
}
use golectron.Protocol.Privileged.{
  Call, unregister_call, handler_call, Extends, privileged_call, lock_call, run, run-Extends,
}
use golectron.Protocol.Handled.{Served, dispatch-Served}
use golectron.Protocol.Lifetime.{served-until-unregistered}

abbrev table : CaseTable
table = record { lower = λ c. c; upper = λ c. c }

-- A responder is the status code that it answers.
abbrev respond : ℕ → Request → Outcome ℕ Response
respond status req = ok (record { status_code = pos status; headers = []; body = req.method })

abbrev app : Handler ℕ
app = record { kind = codes "buffer"; responder = some 200 }

abbrev req : Request
req = record { url = codes "app:home"; method = codes " get"; headers = [] }

abbrev fresh : Registry ℕ
fresh = record { locked = false; privileges = λ k. none; handlers = λ k. none }

scheme_named : normalize_scheme table (codes " app:") ≡ ok (codes "app")
unfolding normalize_scheme to_lower matches_scheme text_eq trim_space trim_left trim_right is_space
    trim_suffix
scheme_named = refl

url_named : normalize_scheme table (before_colon (codes "app:home")) ≡ ok (codes "app")
unfolding normalize_scheme to_lower matches_scheme before_colon text_eq trim_space trim_left
    trim_right is_space trim_suffix
url_named = refl

abbrev served : Registry ℕ
served = record fresh { handlers = put (codes "app") app fresh.handlers }

abbrev page : Response
page = record { status_code = pos 200; headers = []; body = codes "GET" }

page_valid : validate_response page ≡ none
unfolding validate_response validate_headers
page_valid = refl

req_handed :
    respond 200 (record req { method = map (to_upper table) (trim_space req.method) }) ≡ ok page
unfolding to_upper trim_space trim_left trim_right is_space
req_handed = refl

other_named : normalize_scheme table (codes "b") ≢ ok (codes "app")
unfolding normalize_scheme to_lower matches_scheme text_eq trim_space trim_left trim_right is_space
    trim_suffix
other_named e = cc e

abbrev between : List (Call ℕ)
between = unregister_call (codes "b") ∷ handler_call (codes " app:") app ∷ []

served-until-unregistered_example :
    let registered = register_handler table (codes " app:") app fresh in
    let later = run table between registered.1 in
    let removed = unregister_protocol table (codes " app:") later in
    (registered.0 ≡ none)
    × (is_protocol_handled table (codes " app:") later ≡ true)
    × (dispatch table respond req later ≡ ok page)
    × (removed.0 ≡ none)
    × (dispatch table respond req removed.1 ≡ err (inl not_registered))
served-until-unregistered_example =
    served-until-unregistered table respond (codes " app:") (codes "app") app 200 req page between
      fresh scheme_named url_named refl refl refl (other_named, (tt, tt)) req_handed page_valid

req_answered : dispatch table respond req served ≡ ok page
unfolding to_lower to_upper dispatch dispatch_answer handed validate_response validate_headers
    normalize_scheme matches_scheme before_colon text_eq trim_space trim_left trim_right is_space
    trim_suffix
req_answered = refl

dispatch-Served_example : Served table respond req served page
dispatch-Served_example = dispatch-Served table respond req served page req_answered

abbrev extension : SchemePrivilege
extension = record {
  scheme = codes "app";
  privileges = record {
    standard = false;
    secure = true;
    bypass_csp = false;
    support_fetch_api = false;
    cors_enabled = false;
    stream = false;
    allow_service_workers = false;
    allow_extensions = true;
  };
}

run-Extends_example :
    Extends fresh (run table (privileged_call (extension ∷ []) ∷ lock_call ∷ []) fresh)
run-Extends_example = run-Extends table (privileged_call (extension ∷ []) ∷ lock_call ∷ []) fresh
