-- ===== src/Ipc/Router/Tests.antt =====
-- Runs of the channel handlers, and the theorems at concrete routers. Handler 7 doubles.
use golectron.Prelude.{ℕ, ◌≡◌, ◌≢◌, refl, true, pos, some, none, [], Outcome, ok, err}
use golectron.Text.{codes, text_eq, text_eq_iff}
use golectron.Ipc.Router.{
  IpcError, no_handler, Message, Router, register_entry, new_router, take_entry, take_handler,
  reply, invoke, handle_once,
}
use golectron.Ipc.Router.Calls.{invoke_once}

abbrev call : ℕ → Message ℕ → Router ℕ → Outcome (IpcError ℕ) ℕ × Router ℕ
call h msg r = (ok h, r)

abbrev ping : Message ℕ
ping = record { channel = codes "ping"; frame_id = pos 1; args = [] }

abbrev once_router : Router ℕ
once_router = (register_entry {X = ℕ} (codes "ping") (some 7) true new_router).1

served : (invoke call ping once_router).0 ≡ ok 7
unfolding invoke reply take_handler take_entry register_entry new_router text_eq
served = refl

pong-ne-ping : codes "pong" ≢ codes "ping"
unfolding text_eq
pong-ne-ping e = cc ((text_eq_iff (codes "pong") (codes "ping")).1 e)

ping_free : (new_router {H = ℕ}).handlers (codes "ping") ≡ none
unfolding new_router
ping_free = refl

invoke_once_example :
    let registered = handle_once {H = ℕ} {X = ℕ} (codes "ping") (some 7) new_router in
    let first = invoke call ping registered.1 in
    (registered.0 ≡ none)
    × (first ≡ (ok 7, new_router))
    × (invoke call ping first.1 ≡ (err (no_handler (codes "ping")), first.1))
invoke_once_example = invoke_once call ping refl 7 new_router ping_free ping_free
