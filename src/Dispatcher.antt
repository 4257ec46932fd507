-- ===== src/Dispatcher.antt =====
-- internal/native/dispatcher.go: calls from renderers to registered handlers, through one queue.
-- This module has what one goroutine does alone; Dispatcher/System puts the goroutines together.
-- The texts of errors and the duration of a call are left out, and bytes are never shared, so a
-- borrowed payload is a copied one.
pub mod Calls
pub mod System
pub mod Tests
use golectron.Prelude.{
  ℕ, zero, suc, ◌+◌, ◌*◌, ◌^◌, ◌%◌, ℤ, pos, negsuc, is_nonpositive, Bool, true, false, not, ◌&&◌,
  Option, none, some, List, [], ◌∷◌, Outcome, ok, err, length, ltb, ◌==◌, if◌then◌else◌,
}
use golectron.Text.{Text, text_eq, is_empty}

pub data DispatchErrorCode : Type 0 where
  invalid_request unauthorized backpressure dispatcher_closed timed_out canceled : DispatchErrorCode
  handler_not_found handler_failed handler_panic payload_too_large response_too_large :
      DispatchErrorCode

-- A Go `error` as `normalizeDispatchError` tells them apart.
pub data GoError : Type 0 where
  dispatch_error : DispatchErrorCode → GoError
  deadline_exceeded context_canceled : GoError
  other_error : Text → GoError

pub record Request : Type 0 where
  pub id : ℕ
  pub browser_id : ℤ
  pub frame_id : ℤ
  pub origin : Text
  pub capability : Text
  pub method : Text
  pub payload : List ℕ
  pub timeout : ℤ

pub record Response : Type 0 where
  pub request_id : ℕ
  pub browser_id : ℤ
  pub frame_id : ℤ
  pub capability : Text
  pub method : Text
  pub payload : List ℕ
  pub error : Option DispatchErrorCode

-- `map[CapabilityMethod]V`
abbrev pub MethodMap : Type 0 → Type 0
MethodMap V = Text → Text → Option V

abbrev pub put_method : {V : Type 0} → Text → Text → Option V → MethodMap V → MethodMap V
put_method c m v d = λ c' m'. if text_eq c c' && text_eq m m' then v else d c' m'

pub record DispatcherOptions : Type 0 where
  pub queue_size : ℤ
  pub default_timeout : ℤ
  pub max_payload_bytes : ℤ
  pub max_response_bytes : ℤ
  pub borrow_payload : Bool
  pub policy : Option (Request → Option GoError)

pub record Dispatcher (H : Type 0) : Type 0 where
  pub handlers : MethodMap H
  pub queue_size : ℕ
  pub closed : Bool
  pub next_id : ℕ
  pub default_timeout : ℕ
  pub max_payload_bytes : ℕ
  pub max_response_bytes : ℕ
  pub borrow_payload : Bool
  pub policy : Option (Request → Option GoError)

abbrev pub default_queue_size : ℕ
default_queue_size = 64

-- In nanoseconds.
abbrev pub default_dispatcher_timeout : ℕ
default_dispatcher_timeout = 5 * 10 ^ 9

abbrev pub default_max_payload_bytes : ℕ
default_max_payload_bytes = 2 ^ 20

-- A number that is set, or the default where it is not positive.
pub positive_or : ℤ → ℕ → ℕ
positive_or (pos zero) d = d
positive_or (pos (suc n)) d = suc n
positive_or (negsuc n) d = d

pub new_dispatcher : {H : Type 0} → DispatcherOptions → Dispatcher H
new_dispatcher opts =
    let max_payload = positive_or opts.max_payload_bytes default_max_payload_bytes in
    record {
      handlers = λ c m. none;
      queue_size = positive_or opts.queue_size default_queue_size;
      closed = false;
      next_id = 0;
      default_timeout = positive_or opts.default_timeout default_dispatcher_timeout;
      max_payload_bytes = max_payload;
      max_response_bytes = positive_or opts.max_response_bytes max_payload;
      borrow_payload = opts.borrow_payload;
      policy = opts.policy;
    }

-- `dispatchKey`: the error of a key that is not one.
pub dispatch_key : Text → Text → Option DispatchErrorCode
dispatch_key capability method =
    if is_empty capability
    then some invalid_request
    else if is_empty method
    then some invalid_request
    else none

pub normalize_dispatch_error : GoError → DispatchErrorCode
normalize_dispatch_error (dispatch_error code) = code
normalize_dispatch_error deadline_exceeded = timed_out
normalize_dispatch_error context_canceled = canceled
normalize_dispatch_error (other_error message) = handler_failed

-- `StaticDispatchPolicy`: sets of origins and of methods, with whether they are empty.
pub record StaticDispatchPolicy : Type 0 where
  pub allowed_origins : List (Text × Bool)
  pub allowed_methods : List ((Text × Text) × Bool)

pub allowed_origin : Text → List (Text × Bool) → Bool
allowed_origin origin [] = false
allowed_origin origin ((o, b) ∷ rest) =
    let later = allowed_origin origin rest in if text_eq o origin then b else later

pub allowed_method : Text → Text → List ((Text × Text) × Bool) → Bool
allowed_method c m [] = false
allowed_method c m (((c', m'), b) ∷ rest) =
    let later = allowed_method c m rest in if text_eq c' c && text_eq m' m then b else later

abbrev is_nil : {A : Type 0} → List A → Bool
is_nil [] = true
is_nil (a ∷ rest) = false

pub authorize : StaticDispatchPolicy → Request → Option GoError
authorize p req =
    if not (is_nil p.allowed_origins) && not (allowed_origin req.origin p.allowed_origins)
    then some (dispatch_error unauthorized)
    else if not (is_nil p.allowed_methods)
        && not (allowed_method req.capability req.method p.allowed_methods)
    then some (dispatch_error unauthorized)
    else none

abbrev ask_policy : Option (Request → Option GoError) → Request → Option GoError
ask_policy none req = none
ask_policy (some policy) req = policy req

module _ {H : Type 0} where
  pub register : Text → Text → Option H → Dispatcher H → Option DispatchErrorCode × Dispatcher H
  register capability method handler d = elim (dispatch_key capability method) [
    | some e ↦ (some e, d)
    | none ↦ elim handler [
      | none ↦ (some invalid_request, d)
      | some h ↦
          if d.closed then (some dispatcher_closed, d) else elim (d.handlers capability method) [
            | some old ↦ (some invalid_request, d)
            | none ↦
                (none, record d { handlers = put_method capability method (some h) d.handlers })
          ]
    ]
  ]

  pub unregister : Text → Text → Dispatcher H → Option DispatchErrorCode × Dispatcher H
  unregister capability method d = elim (dispatch_key capability method) [
    | some e ↦ (some e, d)
    | none ↦ (none, record d { handlers = put_method capability method none d.handlers })
  ]

  -- `nextID.Add(1)` on a uint64, for a request that has no identifier.
  pub assign_id : Request → Dispatcher H → Request × Dispatcher H
  assign_id req d =
      let id = (d.next_id + 1) % 2 ^ 64 in
      if req.id == 0 then (record req { id = id }, record d { next_id = id }) else (req, d)

  -- `prepare`, after it has given the request an identifier.
  pub check_request : Dispatcher H → Request → Outcome DispatchErrorCode (Request × H)
  check_request d req = elim (dispatch_key req.capability req.method) [
    | some e ↦ err e
    | none ↦
        if ltb d.max_payload_bytes (length req.payload)
        then err payload_too_large
        else elim (d.handlers req.capability req.method) [
          | none ↦ err handler_not_found
          | some handler ↦ elim (ask_policy d.policy req) [
            | some e ↦ err (normalize_dispatch_error e)
            | none ↦ ok (req, handler)
          ]
        ]
  ]

  pub prepare : Request → Dispatcher H → Outcome DispatchErrorCode (Request × H) × Dispatcher H
  prepare req d = let (req', d') = assign_id req d in (check_request d' req', d')

  -- The time that the handler's context has.
  pub handler_timeout : Dispatcher H → ℤ → ℕ
  handler_timeout d timeout = positive_or timeout d.default_timeout

-- What a call of a handler comes to.
pub data Result : Type 0 where
  returned : List ℕ → Result
  failed : GoError → Result
  panicked : Result

pub safe_dispatch_call : Result → Outcome DispatchErrorCode (List ℕ)
safe_dispatch_call (returned payload) = ok payload
safe_dispatch_call (failed e) = err (normalize_dispatch_error e)
safe_dispatch_call panicked = err handler_panic

abbrev answer : Request → List ℕ → Option DispatchErrorCode → Response
answer req payload error = record {
  request_id = req.id;
  browser_id = req.browser_id;
  frame_id = req.frame_id;
  capability = req.capability;
  method = req.method;
  payload = payload;
  error = error;
}

-- The response that `handle` sends.
pub handle : {H : Type 0} → Dispatcher H → Request → Result → Response
handle d req result = elim (safe_dispatch_call result) [
  | err e ↦ answer req [] (some e)
  | ok payload ↦
      if ltb d.max_response_bytes (length payload)
      then answer req [] (some response_too_large)
      else answer req payload none
]

-- The response that `rejectQueued` sends.
pub reject_queued : Request → Response
reject_queued req = answer req [] (some dispatcher_closed)
