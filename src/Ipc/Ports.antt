-- ===== src/Ipc/Ports.antt =====
-- internal/ipc/router.go: the two ends of a message channel. A `*MessagePort` is a number, the
-- ports of a network are a heap, and `nil` is `none`. A handler is application code: `call` is
-- what it does with a message to the network and to the application's own state.
pub mod Order
pub mod Closed
mod Tests
use golectron.Prelude.{
  ℕ, Bool, true, false, ◌||◌, Option, none, some, List, [], ◌∷◌, ◌++◌, ◌==◌, if◌then◌else◌,
}
use golectron.Callbacks.{run_waiters}

pub data PortError : Type 0 where
  port_closed : PortError

-- `H` handlers, `M` messages (the data with the ports sent along).
pub record MessagePort (H M : Type 0) : Type 0 where
  pub peer : Option ℕ
  pub started : Bool
  pub closed : Bool
  pub queue : List M
  pub handlers : List H

pub record Network (H M A : Type 0) : Type 0 where
  pub ports : ℕ → MessagePort H M
  pub app : A

module _ {H M A : Type 0} where
  abbrev pub update : ℕ → MessagePort H M → Network H M A → Network H M A
  update p port net = record net { ports = λ q. if q == p then port else net.ports q }

  -- `NewMessageChannel` at two fresh references.
  pub new_message_channel : ℕ → ℕ → Network H M A → Network H M A
  new_message_channel p1 p2 net =
      let fresh : ℕ → MessagePort H M = λ peer. record {
        peer = some peer;
        started = false;
        closed = false;
        queue = [];
        handlers = [];
      } in
      update p2 (fresh p1) (update p1 (fresh p2) net)

  pub on_message : ℕ → Option H → Network H M A → Network H M A
  on_message p none net = net
  on_message p (some h) net =
      update p (record (net.ports p) { handlers = (net.ports p).handlers ++ h ∷ [] }) net

  pub close : ℕ → Network H M A → Network H M A
  close p net = update p (record (net.ports p) { closed = true; queue = []; handlers = [] }) net

  -- `Start` up to its unlock: the messages and the handlers to run, if any.
  pub start_begin : ℕ → Network H M A → (List M × List H) × Network H M A
  start_begin p net = if (net.ports p).closed || (net.ports p).started then (([], []), net) else (
    ((net.ports p).queue, (net.ports p).handlers),
    update p (record (net.ports p) { started = true; queue = [] }) net,
  )

module _ {H M A : Type 0} (call : H → M → Network H M A → Network H M A) where
  -- `for _, handler := range handlers { handler(event) }`
  pub dispatch : List H → M → Network H M A → Network H M A
  dispatch handlers event net = run_waiters (λ h. call h event) handlers net

  -- The rest of `Start`.
  pub start_finish : List M × List H → Network H M A → Network H M A
  start_finish (queued, handlers) net = run_waiters (dispatch handlers) queued net

  pub start : ℕ → Network H M A → Network H M A
  start p net = let (work, net') = start_begin p net in start_finish work net'

  pub deliver : ℕ → M → Network H M A → Network H M A
  deliver p event net =
      if (net.ports p).closed
      then net
      else if (net.ports p).started
      then dispatch (net.ports p).handlers event net
      else update p (record (net.ports p) { queue = (net.ports p).queue ++ event ∷ [] }) net

  pub post_to : Option ℕ → M → Network H M A → Option PortError × Network H M A
  post_to none event net = (some port_closed, net)
  post_to (some q) event net = (none, deliver q event net)

  pub post_message : ℕ → M → Network H M A → Option PortError × Network H M A
  post_message p event net =
      if (net.ports p).closed then (some port_closed, net) else post_to (net.ports p).peer event net

  -- Several messages, posted one after the other.
  pub post_all : ℕ → List M → Network H M A → Network H M A
  post_all p [] net = net
  post_all p (m ∷ ms) net = post_all p ms (post_message p m net).1
