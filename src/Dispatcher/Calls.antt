-- ===== src/Dispatcher/Calls.antt =====
-- What `prepare` and `handle` of internal/native/dispatcher.go let through.
use golectron.Prelude.{
  ℕ, ◌+◌, ◌%◌, ◌==◌, ◌^◌, ◌-◌, ◌<◌, ◌≤◌, ◌≡◌, ◌↔◌, ◌⊎◌, refl, true, false, Option, none, some,
  Option-cases, [], Bool-cases, Outcome, ok, err, length, ltb, if-elim, if◌then◌else◌, arith, inl,
  inr, subst, sym, Bool,
}
use golectron.Text.{Text, is_empty}
use golectron.Dispatcher.{
  DispatchErrorCode, invalid_request, timed_out, canceled, handler_failed, handler_panic,
  response_too_large, GoError, dispatch_error, deadline_exceeded, context_canceled, other_error,
  Request, Response, DispatcherOptions, Dispatcher, positive_or, new_dispatcher, dispatch_key,
  normalize_dispatch_error, assign_id, check_request, prepare, Result, returned, failed, panicked,
  safe_dispatch_call, handle, payload_too_large, handler_not_found,
}

-- The code that a response has for an error of Go.
pub data IsCode : GoError → DispatchErrorCode → Type 0 where
  own_code : (code : DispatchErrorCode) → IsCode (dispatch_error code) code
  deadline_code : IsCode deadline_exceeded timed_out
  cancel_code : IsCode context_canceled canceled
  other_code : (message : Text) → IsCode (other_error message) handler_failed

normalize-IsCode : (e : GoError) → IsCode e (normalize_dispatch_error e)
unfolding normalize_dispatch_error
normalize-IsCode (dispatch_error code) = own_code code
normalize-IsCode deadline_exceeded = deadline_code
normalize-IsCode context_canceled = cancel_code
normalize-IsCode (other_error message) = other_code message

module _ {H : Type 0} (d : Dispatcher H) (req : Request) where
  -- The request names a capability and a method.
  abbrev pub Names : Type 0
  Names = (is_empty req.capability ≡ false) × (is_empty req.method ≡ false)

  -- What becomes of a request, as it stands: the first test that fails gives the error.
  pub data Decides : Outcome DispatchErrorCode (Request × H) → Type 0 where
    no_capability : is_empty req.capability ≡ true → Decides (err invalid_request)
    no_method :
        is_empty req.capability ≡ false → is_empty req.method ≡ true → Decides (err invalid_request)
    too_large : Names → d.max_payload_bytes < length req.payload → Decides (err payload_too_large)
    unknown :
        Names
        → length req.payload ≤ d.max_payload_bytes
        → d.handlers req.capability req.method ≡ none
        → Decides (err handler_not_found)
    denied :
        (h : H) (policy : Request → Option GoError) (e : GoError) (code : DispatchErrorCode)
        → Names
        → length req.payload ≤ d.max_payload_bytes
        → d.handlers req.capability req.method ≡ some h
        → d.policy ≡ some policy
        → policy req ≡ some e
        → IsCode e code
        → Decides (err code)
    unguarded :
        (h : H)
        → Names
        → length req.payload ≤ d.max_payload_bytes
        → d.handlers req.capability req.method ≡ some h
        → d.policy ≡ none
        → Decides (ok (req, h))
    permitted :
        (h : H) (policy : Request → Option GoError)
        → Names
        → length req.payload ≤ d.max_payload_bytes
        → d.handlers req.capability req.method ≡ some h
        → d.policy ≡ some policy
        → policy req ≡ none
        → Decides (ok (req, h))

  module _ (named : Names) (fits : ltb d.max_payload_bytes (length req.payload) ≡ false) where
    handled-Decides :
        (h : H) → d.handlers req.capability req.method ≡ some h → Decides (check_request d req)
    unfolding check_request dispatch_key
    handled-Decides h g = elim (Option-cases d.policy) [
      | inl n ↦
          let accepts : check_request d req ≡ ok (req, h) =
            rw (named.0, named.1, fits, g, n, check_request) refl in
          subst Decides (sym accepts) (unguarded h named (ground (arith, fits)) g n)
      | inr (policy, n) ↦ elim (Option-cases (policy req)) [
        | inl a ↦
            let accepts : check_request d req ≡ ok (req, h) =
              rw (named.0, named.1, fits, g, n, a, check_request) refl in
            subst Decides (sym accepts) (permitted h policy named (ground (arith, fits)) g n a)
        | inr (e, a) ↦
            let code = normalize_dispatch_error e in
            let refuses : check_request d req ≡ err code =
              rw (named.0, named.1, fits, g, n, a, check_request) refl in
            subst Decides (sym refuses)
              (denied h policy e code named (ground (arith, fits)) g n a (normalize-IsCode e))
      ]
    ]

    fitting-Decides : Decides (check_request d req)
    unfolding check_request dispatch_key
    fitting-Decides = elim (Option-cases (d.handlers req.capability req.method)) [
      | inl n ↦
          rw (named.0, named.1, fits, n, check_request) (unknown named (ground (arith, fits)) n)
      | inr (h, g) ↦ handled-Decides h g
    ]

  named-Decides : Names → Decides (check_request d req)
  unfolding check_request dispatch_key
  named-Decides named = elim (Bool-cases (ltb d.max_payload_bytes (length req.payload))) [
    | inl b ↦ rw (named.0, named.1, b, check_request) (too_large named (ground (arith, b)))
    | inr b ↦ fitting-Decides named b
  ]

  -- `check_request` answers a request as `Decides` says.
  check_request-Decides : Decides (check_request d req)
  unfolding check_request dispatch_key
  check_request-Decides = elim (Bool-cases (is_empty req.capability)) [
    | inl b ↦ rw (b, check_request) (no_capability b)
    | inr b ↦ elim (Bool-cases (is_empty req.method)) [
      | inl c ↦ rw (b, c, check_request) (no_method b c)
      | inr c ↦ named-Decides (b, c)
    ]
  ]

  -- After `prepare` a request has an identifier other than 0, but for the one that is counted when
  -- the 64-bit counter wraps.
  pub assign_id-bounds :
      d.next_id < 2 ^ 64 → ((assign_id req d).0.id ≡ 0) ↔ ((req.id ≡ 0) × (d.next_id ≡ 2 ^ 64 - 1))
  unfolding assign_id
  assign_id-bounds small = ground arith

  -- What the response says of the handler's result.
  abbrev pub Reports : Result → Response → Type 0
  Reports (returned payload) r =
      ((length payload ≤ d.max_response_bytes) × (r.error ≡ none) × (r.payload ≡ payload))
      ⊎ ((d.max_response_bytes < length payload)
          × (r.error ≡ some response_too_large)
          × (r.payload ≡ []))
  Reports (failed e) r =
      (code : DispatchErrorCode) × IsCode e code × (r.error ≡ some code) × (r.payload ≡ [])
  Reports panicked r = (r.error ≡ some handler_panic) × (r.payload ≡ [])

  -- The response is to the request, and says what the result was.
  pub record IsResponse (result : Result) (r : Response) : Type 0 where
    pub request : r.request_id ≡ req.id
    pub browser : r.browser_id ≡ req.browser_id
    pub frame : r.frame_id ≡ req.frame_id
    pub of_capability : r.capability ≡ req.capability
    pub of_method : r.method ≡ req.method
    pub reports : Reports result r

  -- A response carries the request's identifiers, capability and method. It has the payload that
  -- the handler returned and no error exactly if the payload is within the limit; otherwise it has
  -- no payload, and its error says that the response is too large, that the handler panicked, or
  -- the code of the handler's error.
  pub handle_lem : (result : Result) → IsResponse result (handle d req result)
  unfolding handle safe_dispatch_call
  handle_lem (returned payload) =
      if-elim (IsResponse (returned payload)) (ltb d.max_response_bytes (length payload))
        (λ large. record {
          request = refl;
          browser = refl;
          frame = refl;
          of_capability = refl;
          of_method = refl;
          reports = inr (ground (arith, large), refl, refl);
        })
        (λ small. record {
          request = refl;
          browser = refl;
          frame = refl;
          of_capability = refl;
          of_method = refl;
          reports = inl (ground (arith, small), refl, refl);
        })
  handle_lem (failed x) = record {
    request = refl;
    browser = refl;
    frame = refl;
    of_capability = refl;
    of_method = refl;
    reports = (normalize_dispatch_error x, normalize-IsCode x, refl, refl);
  }
  handle_lem panicked = record {
    request = refl;
    browser = refl;
    frame = refl;
    of_capability = refl;
    of_method = refl;
    reports = (refl, refl);
  }

module _ {H : Type 0} where
  -- The request with the identifier that it gets: the next of the counter, if it has none.
  abbrev pub numbered : Request → Dispatcher H → Request
  numbered req d = record req { id = if req.id == 0 then (d.next_id + 1) % 2 ^ 64 else req.id }

  -- The counter plays no part in the decision.
  Decides-next_id :
      (d : Dispatcher H) (n : ℕ) (req : Request) (o : Outcome DispatchErrorCode (Request × H))
      → Decides (record d { next_id = n }) req o
      → Decides d req o
  Decides-next_id d n req _ (no_capability c) = no_capability c
  Decides-next_id d n req _ (no_method c m) = no_method c m
  Decides-next_id d n req _ (too_large k l) = too_large k l
  Decides-next_id d n req _ (unknown k f h) = unknown k f h
  Decides-next_id d n req _ (denied h p e c k f g q a i) = denied h p e c k f g q a i
  Decides-next_id d n req _ (unguarded h k f g q) = unguarded h k f g q
  Decides-next_id d n req _ (permitted h p k f g q a) = permitted h p k f g q a

  -- The two outcomes of `assign_id`, decided on.
  Decides-at :
      (d : Dispatcher H) (req : Request) (n : ℕ) (b : Bool)
      → let given : Request × Dispatcher H =
          if b then (record req { id = n }, record d { next_id = n }) else (req, d) in
        Decides d (record req { id = if b then n else req.id }) (check_request given.1 given.0)
  Decides-at d req n true =
      Decides-next_id d n (record req { id = n }) _
        (check_request-Decides (record d { next_id = n }) (record req { id = n }))
  Decides-at d req n false = check_request-Decides d req

  -- `prepare` gives a request without an identifier the next one, and then decides: a request
  -- without a capability or a method, with a payload beyond the limit, without a handler for its
  -- method, or denied by the policy, is refused, each with its own error and in this order of the
  -- tests; any other is accepted, with the handler registered for its method.
  pub prepare-Decides :
      (d : Dispatcher H) (req : Request) → Decides d (numbered req d) (prepare req d).0
  unfolding prepare assign_id
  prepare-Decides d req = Decides-at d req ((d.next_id + 1) % 2 ^ 64) (req.id == 0)

-- The limits of a new dispatcher are positive whatever the options say, and its queue has room.
pub new_dispatcher_lem :
    (H : Type 0) (opts : DispatcherOptions)
    → let d : Dispatcher H = new_dispatcher opts in
      (0 < d.queue_size)
      × (0 < d.default_timeout)
      × (0 < d.max_payload_bytes)
      × (0 < d.max_response_bytes)
unfolding new_dispatcher positive_or
new_dispatcher_lem H opts = ground arith
