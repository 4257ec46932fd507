-- ===== src/Protocol/Handled.antt =====
-- Requests for custom schemes in internal/protocol/registry.go: who serves them, and with what.
use golectron.Prelude.{
  ◌≡◌, refl, sym, ap, ◌∙◌, true, false, none, some, Option-cases, inl, inr, Outcome, ok, err,
  Outcome-cases, subst,
}
use golectron.Text.{Text, is_empty}
use golectron.Dict.{put, delete}
use golectron.GlobalShortcut.Accelerator.{CaseTable}
use golectron.Protocol.{
  ProtocolError, not_registered, responder_required, Request, Response, Handler, Registry,
  normalize_scheme, validate_response, before_colon, register_handler, is_protocol_handled,
  unregister_protocol, checked, dispatch_answer, handed, dispatch,
}

-- `res` is what the responder of the request's scheme answered, and it passes `ValidateResponse`.
pub record Served {H X : Type 0} (table : CaseTable) (respond : H → Request → Outcome X Response)
    (req : Request) (r : Registry H) (res : Response) : Type 0 where
  pub name : Text
  pub named : normalize_scheme table (before_colon req.url) ≡ ok name
  pub handler : Handler H
  pub found : r.handlers name ≡ some handler
  pub h : H
  pub responds : handler.responder ≡ some h
  pub answered : respond h (handed table respond req) ≡ ok res
  pub valid : validate_response res ≡ none

module _ (table : CaseTable) {H X : Type 0} (respond : H → Request → Outcome X Response) where
  pub dispatch_found :
      (req : Request) (r : Registry H) (name : Text) (handler : Handler H) (h : H)
      → normalize_scheme table (before_colon req.url) ≡ ok name
      → r.handlers name ≡ some handler
      → handler.responder ≡ some h
      → dispatch table respond req r
        ≡ dispatch_answer table respond (respond h (handed table respond req))
  unfolding dispatch
  dispatch_found req r name handler h n f e = rw (n, f, e, dispatch) refl

  dispatch_idle :
      (req : Request) (r : Registry H) (name : Text) (handler : Handler H)
      → normalize_scheme table (before_colon req.url) ≡ ok name
      → r.handlers name ≡ some handler
      → handler.responder ≡ none
      → dispatch table respond req r ≡ err (inl responder_required)
  unfolding dispatch
  dispatch_idle req r name handler n f e = rw (n, f, e, dispatch) refl

  pub dispatch_missing :
      (req : Request) (r : Registry H) (name : Text)
      → normalize_scheme table (before_colon req.url) ≡ ok name
      → r.handlers name ≡ none
      → dispatch table respond req r ≡ err (inl not_registered)
  unfolding dispatch
  dispatch_missing req r name n f = rw (n, f, dispatch) refl

  dispatch_unnamed :
      (req : Request) (r : Registry H) (x : ProtocolError)
      → normalize_scheme table (before_colon req.url) ≡ err x
      → dispatch table respond req r ≡ err (inl x)
  unfolding dispatch
  dispatch_unnamed req r x n = rw (n, dispatch) refl

  answer_valid :
      (o : Outcome X Response) (res : Response)
      → dispatch_answer table respond o ≡ ok res
      → (o ≡ ok res) × (validate_response res ≡ none)
  unfolding dispatch_answer
  answer_valid (err x) res e = cc e
  answer_valid (ok given) res e = elim (Option-cases (validate_response given)) [
    | inr (x, v) ↦ cc (e, ap (λ o. checked table respond o given) v)
    | inl v ↦
        let same : checked table respond none given ≡ ok res =
          ap (λ o. checked table respond o given) (sym v) ∙ e in
        let given_res : given ≡ res = cc same in
        (ap ok given_res, subst (λ a. validate_response a ≡ none) given_res v)
  ]

  pub register_at :
      (scheme name : Text) (handler : Handler H) (r : Registry H)
      → normalize_scheme table scheme ≡ ok name
      → is_empty handler.kind ≡ false
      → r.handlers name ≡ none
      → register_handler table scheme handler r
        ≡ (none, record r { handlers = put name handler r.handlers })
  unfolding register_handler
  register_at scheme name handler r n k f = rw (n, f, k, register_handler) refl

  pub handled_at :
      (scheme name : Text) (handler : Handler H) (r : Registry H)
      → normalize_scheme table scheme ≡ ok name
      → r.handlers name ≡ some handler
      → is_protocol_handled table scheme r ≡ true
  unfolding is_protocol_handled
  handled_at scheme name handler r n f = rw (n, f, is_protocol_handled) refl

  pub unregister_at :
      (scheme name : Text) (handler : Handler H) (r : Registry H)
      → normalize_scheme table scheme ≡ ok name
      → r.handlers name ≡ some handler
      → unregister_protocol table scheme r ≡ (none, record r { handlers = delete name r.handlers })
  unfolding unregister_protocol
  unregister_at scheme name handler r n f = rw (n, f, unregister_protocol) refl

  -- A request that is answered was handed to the responder that is registered for the scheme in
  -- front of its URL, with its method trimmed and in upper case, and what the responder answered is
  -- given back and passes `ValidateResponse`.
  pub dispatch-Served :
      (req : Request) (r : Registry H) (res : Response)
      → dispatch table respond req r ≡ ok res
      → Served table respond req r res
  dispatch-Served req r res e =
      elim (Outcome-cases (normalize_scheme table (before_colon req.url))) [
        | inr (x, n) ↦ cc (e, dispatch_unnamed req r x n)
        | inl (name, n) ↦ elim (Option-cases (r.handlers name)) [
          | inl f ↦ cc (e, dispatch_missing req r name n f)
          | inr (handler, f) ↦ elim (Option-cases handler.responder) [
            | inl i ↦ cc (e, dispatch_idle req r name handler n f i)
            | inr (h, i) ↦
                let o = respond h (handed table respond req) in
                let good =
                  answer_valid o res (sym (dispatch_found req r name handler h n f i) ∙ e) in
                record {
                  name = name;
                  named = n;
                  handler = handler;
                  found = f;
                  h = h;
                  responds = i;
                  answered = good.0;
                  valid = good.1;
                }
          ]
        ]
      ]
