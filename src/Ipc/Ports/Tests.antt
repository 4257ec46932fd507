-- ===== src/Ipc/Ports/Tests.antt =====
-- Runs of a message channel, and the theorems at concrete networks. Handlers log what they get.
use golectron.Prelude.{ℕ, ◌≡◌, refl, false, none, some, List, [], ◌∷◌, ◌++◌}
use golectron.Callbacks.{run_waiters}
use golectron.Ipc.Ports.{
  Network, new_message_channel, on_message, start_begin, dispatch, start_finish, start, deliver,
  post_to, post_message, post_all,
}
use golectron.Ipc.Ports.Order.{acting, handled, handled_all, IsConnected, start_overtaken}

abbrev log_it : ℕ → ℕ → List ℕ → List ℕ
log_it h m log = log ++ m ∷ []

abbrev blank : Network ℕ ℕ (List ℕ)
blank = record {
  ports = λ p. record { peer = none; started = false; closed = false; queue = []; handlers = [] };
  app = [];
}

abbrev channel : Network ℕ ℕ (List ℕ)
channel = on_message 2 (some 7) (new_message_channel 1 2 blank)

abbrev held : Network ℕ ℕ (List ℕ)
held = post_all (acting log_it) 1 (30 ∷ 31 ∷ []) channel

in_order : (start (acting log_it) 2 held).app ≡ 30 ∷ 31 ∷ []
unfolding start start_begin start_finish dispatch post_all post_message post_to deliver on_message
    new_message_channel run_waiters
in_order = refl

held-IsConnected : IsConnected 1 2 held
unfolding post_all post_message post_to deliver on_message new_message_channel
held-IsConnected = record { sender_open = refl; peer_known = refl; receiver_open = refl }

held_waits : (held.ports 2).started ≡ false
unfolding post_all post_message post_to deliver on_message new_message_channel
held_waits = refl

-- Message 32 comes between the two halves of `Start` and is handled before 30 and 31.
start_overtaken_example :
    (start_finish
      (acting log_it)
      (start_begin 2 held).0
      (post_message (acting log_it) 1 32 (start_begin 2 held).1).1).app
    ≡ handled_all log_it
        (held.ports 2).handlers
        (held.ports 2).queue
        (handled log_it (held.ports 2).handlers 32 held.app)
start_overtaken_example = start_overtaken log_it 1 2 32 held held-IsConnected held_waits

overtaken_log :
    handled_all log_it
      (held.ports 2).handlers
      (held.ports 2).queue
      (handled log_it (held.ports 2).handlers 32 held.app)
    ≡ 32 ∷ 30 ∷ 31 ∷ []
unfolding post_all post_message post_to deliver on_message new_message_channel run_waiters
overtaken_log = refl
