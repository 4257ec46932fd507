-- ===== src/Ipc/Router.antt =====
-- internal/ipc/router.go: the channel handlers. A handler is application code that may register
-- and remove handlers itself: `call` is its reply and what it does to the router. The request
-- context is only passed through to it.
pub mod Calls
mod Tests
use golectron.Prelude.{
  ◌≡◌, Bool, true, false, ℤ, List, Option, none, some, Outcome, ok, err, if◌then◌else◌,
}
use golectron.Text.{Text, is_empty}
use golectron.Dict.{Dict, empty, put, delete, has}

pub data IpcError (X : Type 0) : Type 0 where
  channel_required handler_required : IpcError X
  handler_exists no_handler : Text → IpcError X
  handler_failed : X → IpcError X

pub record Message (V : Type 0) : Type 0 where
  pub channel : Text
  pub frame_id : ℤ
  pub args : List V

pub record HandlerEntry (H : Type 0) : Type 0 where
  pub handler : H
  pub once : Bool

pub record Router (H : Type 0) : Type 0 where
  pub handlers : Dict (HandlerEntry H)

module _ {H X : Type 0} where
  pub register_entry : Text → Option H → Bool → Router H → Option (IpcError X) × Router H
  register_entry channel none once r =
      if is_empty channel then (some channel_required, r) else (some handler_required, r)
  register_entry channel (some h) once r =
      if is_empty channel
      then (some channel_required, r)
      else if has (r.handlers channel)
      then (some (handler_exists channel), r)
      else (
        none,
        record { handlers = put channel (record { handler = h; once = once }) r.handlers },
      )

  pub handle : Text → Option H → Router H → Option (IpcError X) × Router H
  handle channel h r = register_entry channel h false r

  pub handle_once : Text → Option H → Router H → Option (IpcError X) × Router H
  handle_once channel h r = register_entry channel h true r

module _ {H : Type 0} where
  pub new_router : Router H
  new_router = record { handlers = empty }

  pub remove_handler : Text → Router H → Router H
  remove_handler channel r = record { handlers = delete channel r.handlers }

  pub has_handler : Text → Router H → Bool
  has_handler channel r = has (r.handlers channel)

  -- The entry that was found, and the router without it if it serves once.
  pub take_entry : Text → Option (HandlerEntry H) → Router H → Option H × Router H
  take_entry channel none r = (none, r)
  take_entry channel (some e) r = (some e.handler, if e.once then remove_handler channel r else r)

  pub take_handler : Text → Router H → Option H × Router H
  take_handler channel r = take_entry channel (r.handlers channel) r

module _ {H X V R : Type 0}
    (call : H → Message V → Router H → Outcome (IpcError X) R × Router H) where
  pub reply : Message V → Option H × Router H → Outcome (IpcError X) R × Router H
  reply msg (none, r) = (err (no_handler msg.channel), r)
  reply msg (some h, r) = call h msg r

  pub invoke : Message V → Router H → Outcome (IpcError X) R × Router H
  invoke msg r =
      if is_empty msg.channel
      then (err channel_required, r)
      else reply msg (take_handler msg.channel r)
