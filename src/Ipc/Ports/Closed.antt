-- ===== src/Ipc/Ports/Closed.antt =====
-- A closed port is silent, and a new channel connects its ends both ways.
use golectron.Prelude.{◌≡◌, ◌≢◌, ℕ, some, [], arith}
use golectron.Callbacks.{run_waiters}
use golectron.Ipc.Ports.{
  port_closed, Network, new_message_channel, close, start_begin, start_finish, start, deliver,
  post_message,
}
use golectron.Ipc.Ports.Order.{IsConnected}

module _ {H M A : Type 0} (call : H → M → Network H M A → Network H M A) (p : ℕ) (m : M)
    (net : Network H M A) where
  -- After `Close` a port refuses to send, drops what is sent to it, runs nothing on `Start`, and
  -- holds no message and no handler.
  pub close_silences :
      (post_message call p m (close p net) ≡ (some port_closed, close p net))
      × (deliver call p m (close p net) ≡ close p net)
      × (start call p (close p net) ≡ close p net)
      × (((close p net).ports p).queue ≡ [])
      × (((close p net).ports p).handlers ≡ [])
  unfolding post_message deliver start start_begin start_finish close run_waiters
  close_silences = (ground arith, ground arith, ground arith, ground arith, ground arith)

-- The two ends of a new channel, at distinct references, are connected to one another.
pub new_message_channel-IsConnected :
    {H M A : Type 0} (p q : ℕ) (net : Network H M A)
    → p ≢ q
    → IsConnected p q (new_message_channel p q net) × IsConnected q p (new_message_channel p q net)
unfolding new_message_channel
new_message_channel-IsConnected p q net distinct = (ground arith, ground arith)
