-- ===== src/Ipc/Ports/Order.antt =====
-- Messages that wait for `Start` are handled as if the port had been started before they came,
-- unless another message overtakes them.
use golectron.Prelude.{ℕ, ◌≡◌, refl, true, false, some, List, [], ◌∷◌, ◌++◌, arith}
use golectron.Callbacks.{run_waiters}
use golectron.Ipc.Ports.{
  Network, update, start_begin, dispatch, start_finish, deliver, post_to, post_message,
}

module _ {H M A : Type 0} (act : H → M → A → A) where
  -- Handlers that do not call a port back: they change the application only.
  abbrev pub acting : H → M → Network H M A → Network H M A
  acting h m net = record net { app = act h m net.app }

  -- What the handlers make of one message and of several.
  abbrev pub handled : List H → M → A → A
  handled hs m = run_waiters (λ h. act h m) hs

  abbrev pub handled_all : List H → List M → A → A
  handled_all hs = run_waiters (handled hs)

  dispatch-acting :
      (hs : List H) (m : M) (net : Network H M A)
      → dispatch acting hs m net ≡ record net { app = handled hs m net.app }
  unfolding dispatch run_waiters
  dispatch-acting [] m net = refl
  dispatch-acting (h ∷ hs) m net = dispatch-acting hs m (acting h m net)

  finish_acting :
      (ms : List M) (hs : List H) (net : Network H M A)
      → start_finish acting (ms, hs) net ≡ record net { app = handled_all hs ms net.app }
  unfolding start_finish run_waiters
  finish_acting [] hs net = refl
  finish_acting (m ∷ ms) hs net =
      rw (dispatch-acting hs m net)
        (finish_acting ms hs (record net { app = handled hs m net.app }))

-- `p` is an open port with the open peer `q`.
pub record IsConnected {H M A : Type 0} (p q : ℕ) (net : Network H M A) : Type 0 where
  pub sender_open : (net.ports p).closed ≡ false
  pub peer_known : (net.ports p).peer ≡ some q
  pub receiver_open : (net.ports q).closed ≡ false

abbrev enqueue : {H M A : Type 0} → ℕ → List M → Network H M A → Network H M A
enqueue q ms net = update q (record (net.ports q) { queue = (net.ports q).queue ++ ms }) net

-- The receiving port is started and its queue is taken.
abbrev begun : {H M A : Type 0} → ℕ → Network H M A → Network H M A
begun q net = update q (record (net.ports q) { started = true; queue = [] }) net

module _ {H M A : Type 0} (p q : ℕ) where
  begun-IsConnected : (net : Network H M A) → IsConnected p q net → IsConnected p q (begun q net)
  begun-IsConnected net c = ground arith

start_begin-begun :
    {H M A : Type 0} (q : ℕ) (net : Network H M A)
    → (net.ports q).closed ≡ false
    → (net.ports q).started ≡ false
    → start_begin q net ≡ (((net.ports q).queue, (net.ports q).handlers), begun q net)
unfolding start_begin
start_begin-begun q net opened waits = simp (opened, waits) refl

module _ {H M A : Type 0} (act : H → M → A → A) (p q : ℕ) where
  post_message_started :
      (m : M) (net : Network H M A) (hs : List H)
      → IsConnected p q net
      → (net.ports q).started ≡ true
      → (net.ports q).handlers ≡ hs
      → (post_message (acting act) p m net).1 ≡ record net { app = handled act hs m net.app }
  unfolding post_message post_to deliver
  post_message_started m net hs c runs listens =
      simp (c.sender_open, c.peer_known, c.receiver_open, runs, listens)
        (dispatch-acting act hs m net)

  -- `Start` unlocks before it handles the queue. A message that is posted in between to a connected
  -- port is handled at once, before all the messages that have waited longer, where the handlers do
  -- not call the ports back.
  pub start_overtaken :
      (m : M) (net : Network H M A)
      → IsConnected p q net
      → (net.ports q).started ≡ false
      → let (work, net') = start_begin q net in
        (start_finish (acting act) work (post_message (acting act) p m net').1).app
        ≡ handled_all act
            (net.ports q).handlers
            (net.ports q).queue
            (handled act (net.ports q).handlers m net.app)
  start_overtaken m net c waits =
      let hs = (net.ports q).handlers in
      let queued = (net.ports q).queue in
      rw (start_begin-begun q net c.receiver_open waits) (
        rw
          (post_message_started m (begun q net) hs (begun-IsConnected p q net c) (ground arith)
            (ground arith))
          (rw
            (finish_acting act queued hs (record (begun q net) { app = handled act hs m net.app }))
            refl))
