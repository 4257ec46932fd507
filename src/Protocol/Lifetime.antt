-- ===== src/Protocol/Lifetime.antt =====
-- The handlers of internal/protocol/registry.go, from their registration to their removal.
use golectron.Prelude.{
  ◌≡◌, ◌≢◌, refl, sym, ap, ◌∙◌, true, false, not, ◌&&◌, Option, none, some, Bool-cases, List, [],
  ◌∷◌, inl, inr, Outcome, ok, err, Outcome-cases, All, map, if-elim, subst,
}
use golectron.Text.{Text, text_eq, text_eq_iff, is_empty, trim_space}
use golectron.Dict.{Dict, put, delete, has, get-put_self, get-delete_self}
use golectron.GlobalShortcut.Accelerator.{CaseTable, to_upper}
use golectron.Protocol.{
  ProtocolError, not_registered, SchemePrivilege, Request, Response, Handler, Registry,
  normalize_scheme, validate_response, before_colon, register_schemes,
  register_schemes_as_privileged, lock_privileges, register_handler, is_protocol_handled,
  unregister_protocol, checked, dispatch_answer, handed, dispatch,
}
use golectron.Protocol.Privileged.{
  Call, privileged_call, lock_call, handler_call, unregister_call, perform, run,
}
use golectron.Protocol.Handled.{
  dispatch_found, dispatch_missing, register_at, handled_at, unregister_at,
}

module _ (table : CaseTable) {H : Type 0} where
  -- The call does not unregister the scheme.
  abbrev pub Spares : Text → Call H → Type 0
  Spares name (unregister_call scheme) = normalize_scheme table scheme ≢ ok name
  Spares name (privileged_call schemes) = Unit
  Spares name lock_call = Unit
  Spares name (handler_call scheme handler) = Unit

  register_schemes-handlers :
      (schemes : List SchemePrivilege) (r : Registry H)
      → (register_schemes table schemes r).1.handlers ≡ r.handlers
  unfolding register_schemes
  register_schemes-handlers [] r = refl
  register_schemes-handlers (s ∷ ss) r = elim (Outcome-cases (normalize_scheme table s.scheme)) [
    | inr (x, e) ↦ rw (e, register_schemes) refl
    | inl (name, e) ↦
        rw (e, register_schemes)
          (if-elim (λ (t : Option ProtocolError × Registry H). t.1.handlers ≡ r.handlers)
            (has (r.privileges name)) (λ _. refl)
            (λ _.
              if-elim (λ (t : Option ProtocolError × Registry H). t.1.handlers ≡ r.handlers)
                (s.privileges.allow_extensions && not s.privileges.standard) (λ _. refl)
                (λ _.
                  register_schemes-handlers ss
                    (record r { privileges = put name s.privileges r.privileges }))))
  ]

  privileged-handlers :
      (schemes : List SchemePrivilege) (r : Registry H)
      → (register_schemes_as_privileged table schemes r).1.handlers ≡ r.handlers
  unfolding register_schemes_as_privileged
  privileged-handlers schemes r =
      if-elim (λ (t : Option ProtocolError × Registry H). t.1.handlers ≡ r.handlers) r.locked
        (λ _. refl) (λ _. register_schemes-handlers schemes r)

  module _ (name : Text) (handler : Handler H) where
    -- The registry has the handler for the scheme.
    record Holds (r : Registry H) : Type 0 where
      held : r.handlers name ≡ some handler

    register_handler-Holds :
        (scheme : Text) (g : Handler H) (r : Registry H)
        → Holds r
        → Holds (register_handler table scheme g r).1
    unfolding register_handler
    register_handler-Holds scheme g r h = elim (Outcome-cases (normalize_scheme table scheme)) [
      | inr (x, e) ↦ rw (e, register_handler) h
      | inl (n, e) ↦
          rw (e, register_handler)
            (if-elim (λ (t : Option ProtocolError × Registry H). Holds t.1) (is_empty g.kind)
              (λ _. h)
              (λ _.
                if-elim (λ (t : Option ProtocolError × Registry H). Holds t.1) (has (r.handlers n))
                  (λ _. h)
                  (λ free. record {
                    held = elim (Bool-cases (text_eq n name)) [
                      | inr other ↦ rw other h.held
                      | inl same ↦ cc (
                        free,
                        ap has (
                            subst (λ j. r.handlers j ≡ some handler)
                              (sym ((text_eq_iff n name).0 same)) h.held),
                      )
                    ];
                  })))
    ]

    unregister-Holds :
        (scheme : Text) (r : Registry H)
        → normalize_scheme table scheme ≢ ok name
        → Holds r
        → Holds (unregister_protocol table scheme r).1
    unfolding unregister_protocol
    unregister-Holds scheme r apart h = elim (Outcome-cases (normalize_scheme table scheme)) [
      | inr (x, e) ↦ rw (e, unregister_protocol) h
      | inl (n, e) ↦
          rw (e, unregister_protocol)
            (if-elim (λ (t : Option ProtocolError × Registry H). Holds t.1)
              (not (has (r.handlers n))) (λ _. h)
              (λ _. record {
                held = elim (Bool-cases (text_eq n name)) [
                  | inr other ↦ rw other h.held
                  | inl same ↦ absurd (apart (e ∙ ap ok ((text_eq_iff n name).0 same)))
                ];
              }))
    ]

    perform-Holds :
        (c : Call H) (r : Registry H) → Spares name c → Holds r → Holds (perform table c r)
    unfolding perform lock_privileges
    perform-Holds (privileged_call schemes) r p h = record {
      held = ap (λ (d : Dict (Handler H)). d name) (privileged-handlers schemes r) ∙ h.held;
    }
    perform-Holds lock_call r p h = record { held = h.held }
    perform-Holds (handler_call scheme g) r p h = register_handler-Holds scheme g r h
    perform-Holds (unregister_call scheme) r p h = unregister-Holds scheme r p h

    run-Holds :
        (cs : List (Call H)) (r : Registry H)
        → All (Spares name) cs
        → Holds r
        → Holds (run table cs r)
    unfolding run
    run-Holds [] r p h = h
    run-Holds (c ∷ cs) r (p, ps) h = run-Holds cs (perform table c r) ps (perform-Holds c r p h)

module _ (table : CaseTable) {H X : Type 0} (respond : H → Request → Outcome X Response) where
  answer_given :
      (res : Response)
      → validate_response res ≡ none
      → dispatch_answer table respond (ok res) ≡ ok res
  unfolding dispatch_answer
  answer_given res v = ap (λ o. checked table respond o res) v

  -- A handler of a kind that is not empty, registered under a scheme that has none, is registered
  -- without an error. After any calls that do not unregister the scheme, it is handled, and a
  -- request for it gets the response that the handler's responder answers to the request with its
  -- method trimmed and in upper case, where that response is valid. `UnregisterProtocol` then
  -- succeeds, and the request is refused as not registered.
  pub served-until-unregistered :
      (scheme name : Text) (handler : Handler H) (h : H) (req : Request) (res : Response)
      (cs : List (Call H)) (r : Registry H)
      → normalize_scheme table scheme ≡ ok name
      → normalize_scheme table (before_colon req.url) ≡ ok name
      → is_empty handler.kind ≡ false
      → handler.responder ≡ some h
      → r.handlers name ≡ none
      → All (Spares table name) cs
      → respond h (record req { method = map (to_upper table) (trim_space req.method) }) ≡ ok res
      → validate_response res ≡ none
      → let registered = register_handler table scheme handler r in
        let later = run table cs registered.1 in
        let removed = unregister_protocol table scheme later in
        (registered.0 ≡ none)
        × (is_protocol_handled table scheme later ≡ true)
        × (dispatch table respond req later ≡ ok res)
        × (removed.0 ≡ none)
        × (dispatch table respond req removed.1 ≡ err (inl not_registered))
  unfolding handed
  served-until-unregistered scheme name handler h req res cs r n u k i f p a v =
      let start = record r { handlers = put name handler r.handlers } in
      let later = run table cs start in
      let found =
        (run-Holds table name handler cs start p
          (record { held = get-put_self name handler r.handlers })).held in
      rw
        (
          register_at table respond scheme name handler r n k f,
          unregister_at table respond scheme name handler later n found,
        )
        (
          refl,
          handled_at table respond scheme name handler later n found,
          dispatch_found table respond req later name handler h u found i
              ∙ ap (dispatch_answer table respond) a
              ∙ answer_given res v,
          refl,
          dispatch_missing table respond req
              (record later { handlers = delete name later.handlers }) name u
              (get-delete_self name later.handlers),
        )
