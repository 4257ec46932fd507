-- ===== src/Ipc/Router/Calls.antt =====
-- Registration, replies and the handlers that serve once.
use golectron.Prelude.{
  sym, subst, ap, ◌∙◌, inl, inr, Bool-cases, ◌≡◌, ◌≢◌, refl, Bool, true, false, Option, none, some,
  Outcome, err, ◌↔◌, if◌then◌else◌, arith,
}
use golectron.Text.{Text, is_empty, text_eq, text_eq_iff, text_eq_refl}
use golectron.Dict.{put, delete, get-put_self, get-delete_self}
use golectron.Ipc.Router.{
  IpcError, no_handler, Message, HandlerEntry, Router, register_entry, handle_once, remove_handler,
  has_handler, take_entry, take_handler, reply, invoke,
}

abbrev pub given : {H : Type 0} → Option H → Bool
given none = false
given (some h) = true

module _ {H X : Type 0} (channel : Text) (once : Bool) (r : Router H) where
  abbrev pub registered : Option H → Option (IpcError X) × Router H
  registered h = register_entry channel h once r

  -- Registration, by `Handle` (`once` false) or by `HandleOnce`, succeeds exactly for a channel
  -- with a name and without a handler, and for a handler that is not nil. It then has the channel,
  -- and a refused one changes nothing.
  pub register_entry_lem :
      (h : Option H)
      → (((registered h).0 ≡ none)
          ↔ ((is_empty channel ≡ false) × (given h ≡ true) × (has_handler channel r ≡ false)))
        × ((registered h).0 ≡ none → has_handler channel (registered h).1 ≡ true)
        × ((registered h).0 ≢ none → (registered h).1 ≡ r)
  unfolding register_entry has_handler
  register_entry_lem none = (ground arith, ground arith, ground arith)
  register_entry_lem (some g) = (ground arith, ground (arith, text_eq_refl channel), ground arith)

module _ {H : Type 0} (channel other : Text) (distinct : channel ≢ other) (r : Router H) where
  register_entry_other :
      (X : Type 0) (h : Option H) (once : Bool)
      → (register_entry {X = X} channel h once r).1.handlers other ≡ r.handlers other
  unfolding register_entry
  register_entry_other X none once = ground arith
  register_entry_other X (some h) once = ground (arith, text_eq_iff channel other)

  -- Registering, removing and taking a handler touch no other channel.
  pub other_channels :
      (X : Type 0) (h : Option H) (once : Bool)
      → ((register_entry {X = X} channel h once r).1.handlers other ≡ r.handlers other)
        × ((remove_handler channel r).handlers other ≡ r.handlers other)
        × ((take_handler channel r).1.handlers other ≡ r.handlers other)
  unfolding remove_handler take_handler take_entry
  other_channels X h once = (
    register_entry_other X h once,
    ground (arith, text_eq_iff channel other),
    ground (arith, text_eq_iff channel other),
  )

module _ {H X V R : Type 0} (call : H → Message V → Router H → Outcome (IpcError X) R × Router H)
    (msg : Message V) (named : is_empty msg.channel ≡ false) where
  invoke_found :
      (e : HandlerEntry H) (r : Router H)
      → r.handlers msg.channel ≡ some e
      → invoke call msg r ≡ call e.handler msg (if e.once then remove_handler msg.channel r else r)
  unfolding invoke take_handler take_entry reply
  invoke_found e r there = rw (named, there) refl

  invoke_missing :
      (r : Router H)
      → r.handlers msg.channel ≡ none
      → invoke call msg r ≡ (err (no_handler msg.channel), r)
  unfolding invoke take_handler take_entry reply
  invoke_missing r gone = rw (named, gone) refl

  -- A handler registered on a free channel with a name serves the next request there, and finds the
  -- router without itself exactly if it serves once.
  pub invoke-register_entry :
      (h : H) (once : Bool) (r : Router H)
      → r.handlers msg.channel ≡ none
      → let r' = (register_entry {X = X} msg.channel (some h) once r).1 in
        invoke call msg r' ≡ call h msg (if once then remove_handler msg.channel r' else r')
  unfolding register_entry
  invoke-register_entry h once r free =
      rw (named, free)
        (invoke_found (record { handler = h; once = once }) _
          (get-put_self msg.channel (record { handler = h; once = once }) r.handlers))

  removed : (r : Router H) → (remove_handler msg.channel r).handlers msg.channel ≡ none
  unfolding remove_handler
  removed r = get-delete_self msg.channel r.handlers

  -- Taking back what `HandleOnce` registered leaves the router as it was.
  remove-put :
      (e : HandlerEntry H) (r : Router H)
      → r.handlers msg.channel ≡ none
      → remove_handler msg.channel (record { handlers = put msg.channel e r.handlers }) ≡ r
  unfolding remove_handler
  remove-put e r free i = record { handlers = λ k. at_key k i }
    where
      at_key : (k : Text) → delete msg.channel (put msg.channel e r.handlers) k ≡ r.handlers k
      at_key k = elim (Bool-cases (text_eq msg.channel k)) [
        | inr other ↦ rw other refl
        | inl same ↦
            rw same
              (sym (subst (λ j. r.handlers j ≡ none) ((text_eq_iff msg.channel k).0 same) free))
      ]

  once_registered :
      (h : H) (r : Router H)
      → r.handlers msg.channel ≡ none
      → handle_once {X = X} msg.channel (some h) r ≡ (
        none,
        record { handlers = put msg.channel (record { handler = h; once = true }) r.handlers },
      )
  unfolding handle_once register_entry
  once_registered h r free = rw (named, free) refl

  once_served :
      (h : H) (r : Router H)
      → r.handlers msg.channel ≡ none
      → invoke call msg (handle_once {X = X} msg.channel (some h) r).1 ≡ call h msg r
  once_served h r free =
      let e : HandlerEntry H = record { handler = h; once = true } in
      ap (λ (t : Option (IpcError X) × Router H). invoke call msg t.1) (once_registered h r free)
      ∙ invoke_found e (record { handlers = put msg.channel e r.handlers })
          (get-put_self msg.channel e r.handlers)
      ∙ ap (call h msg) (remove-put e r free)

  -- A handler that `HandleOnce` is given for a free channel with a name is registered, and serves
  -- exactly one request: the next one on the channel is answered by the handler, which finds the
  -- router as it was before, and the one after that finds no handler, where the handler's call does
  -- not register the channel anew.
  pub invoke_once :
      (h : H) (r : Router H)
      → r.handlers msg.channel ≡ none
      → (call h msg r).1.handlers msg.channel ≡ none
      → let registered = handle_once {X = X} msg.channel (some h) r in
        let first = invoke call msg registered.1 in
        (registered.0 ≡ none)
        × (first ≡ call h msg r)
        × (invoke call msg first.1 ≡ (err (no_handler msg.channel), first.1))
  invoke_once h r free keeps =
      let served = once_served h r free in
      (
        ap (λ (t : Option (IpcError X) × Router H). t.0) (once_registered h r free),
        served,
        invoke_missing (invoke call msg (handle_once {X = X} msg.channel (some h) r).1).1 (
            ap (λ (t : Outcome (IpcError X) R × Router H). t.1.handlers msg.channel) served
            ∙ keeps),
      )
