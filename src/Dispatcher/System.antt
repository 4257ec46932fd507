-- ===== src/Dispatcher/System.antt =====
-- The goroutines of internal/native/dispatcher.go, interleaved in any order: the callers between
-- `prepare` and the `select` of `enqueue`, the loop `run`, and those of `Shutdown`.
-- Each admitted request has a ticket, which stands for its result channel.
pub mod Places
pub mod Order
pub mod Drain
pub mod Stranded
use golectron.Prelude.{
  ℕ, suc, ◌+◌, ◌<◌, ◌≡◌, ◌⊎◌, Bool, true, false, Option, none, some, List, [], ◌∷◌, ◌++◌, Outcome,
  ok, err, length,
}
use golectron.Text.{Text}
use golectron.Dispatcher.{
  DispatchErrorCode, dispatcher_closed, backpressure, timed_out, canceled, Request, Response,
  Dispatcher, register, unregister, prepare, Result, handle, reject_queued,
}

-- `dispatchWork`
pub record Work (H : Type 0) : Type 0 where
  pub ticket : ℕ
  pub req : Request
  pub handler : H

-- The loop `run`: at its `select`, in `handle`, or returned.
pub data Worker (H : Type 0) : Type 0 where
  idle stopped : Worker H
  busy : Work H → Worker H

pub record System (H : Type 0) : Type 0 where
  pub dispatcher : Dispatcher H
  pub waiting : List (Work H)
  pub queue : List (Work H)
  pub worker : Worker H
  -- The goroutines of `Shutdown` that have not finished.
  pub rejecting : ℕ
  -- The responses sent, in their order.
  pub answers : List (ℕ × Response)
  -- The tickets whose callers got an error from the `select`.
  pub refused : List ℕ
  pub next_ticket : ℕ

abbrev pub initial : {H : Type 0} → Dispatcher H → System H
initial d = record {
  dispatcher = d;
  waiting = [];
  queue = [];
  worker = idle;
  rejecting = 0;
  answers = [];
  refused = [];
  next_ticket = 0;
}

module _ {H : Type 0} where
  -- The states after a caller has passed `prepare`, and after its `select`.
  abbrev pub admitted : System H → Dispatcher H → Request × H → System H
  admitted s d (req, h) = record s {
    dispatcher = d;
    waiting = s.waiting ++ record { ticket = s.next_ticket; req = req; handler = h } ∷ [];
    next_ticket = suc s.next_ticket;
  }

  abbrev pub enqueued : System H → List (Work H) → Work H → List (Work H) → System H
  enqueued s before w behind = record s { waiting = before ++ behind; queue = s.queue ++ w ∷ [] }

  abbrev pub turned_away : System H → List (Work H) → Work H → List (Work H) → System H
  turned_away s before w behind = record s {
    waiting = before ++ behind;
    refused = s.refused ++ w.ticket ∷ [];
  }

  abbrev pub send : System H → Work H → Response → System H
  send s w r = record s { answers = s.answers ++ (w.ticket, r) ∷ [] }

  -- Why the `select` of `enqueue` does not send: the caller's context, or the dispatcher, is done,
  -- or `TryDispatch` finds the queue full.
  pub data Refusal (s : System H) : DispatchErrorCode → Type 0 where
    cancelled_caller : Refusal s canceled
    late_caller : Refusal s timed_out
    done : s.dispatcher.closed ≡ true → Refusal s dispatcher_closed
    full : s.dispatcher.queue_size ≡ length s.queue → Refusal s backpressure

  -- What a caller does, or the environment.
  pub data Outer : System H → System H → Type 0 where
    admits :
        (s : System H) (req : Request) (work : Request × H) (d : Dispatcher H)
        → s.dispatcher.closed ≡ false
        → prepare req s.dispatcher ≡ (ok work, d)
        → Outer s (admitted s d work)
    enqueues :
        (s : System H) (before behind : List (Work H)) (w : Work H)
        → s.waiting ≡ before ++ w ∷ behind
        → length s.queue < s.dispatcher.queue_size
        → Outer s (enqueued s before w behind)
    gives_up :
        (s : System H) (before behind : List (Work H)) (w : Work H) (code : DispatchErrorCode)
        → s.waiting ≡ before ++ w ∷ behind
        → Refusal s code
        → Outer s (turned_away s before w behind)
    fails :
        (s : System H) (req : Request) (code : DispatchErrorCode) (d : Dispatcher H)
        → prepare req s.dispatcher ≡ (err code, d)
        → Outer s (record s { dispatcher = d })
    registers :
        (s : System H) (capability method : Text) (h : Option H)
        → Outer s (record s { dispatcher = (register capability method h s.dispatcher).1 })
    unregisters :
        (s : System H) (capability method : Text)
        → Outer s (record s { dispatcher = (unregister capability method s.dispatcher).1 })
    shuts_down :
        (s : System H)
        → Outer s (record s {
          dispatcher = record s.dispatcher { closed = true };
          rejecting = suc s.rejecting;
        })

  -- What the loop `run` and the goroutines of `Shutdown` do.
  pub data Own : System H → System H → Type 0 where
    takes :
        (s : System H) (w : Work H) (rest : List (Work H))
        → s.worker ≡ idle
        → s.queue ≡ w ∷ rest
        → Own s (record s { worker = busy w; queue = rest })
    finishes :
        (s : System H) (w : Work H) (result : Result)
        → s.worker ≡ busy w
        → Own s (record (send s w (handle s.dispatcher w.req result)) { worker = idle })
    stops :
        (s : System H)
        → s.worker ≡ idle
        → s.dispatcher.closed ≡ true
        → Own s (record s { worker = stopped })
    rejects :
        (s : System H) (n : ℕ) (w : Work H) (rest : List (Work H))
        → s.worker ≡ stopped
        → s.rejecting ≡ suc n
        → s.queue ≡ w ∷ rest
        → Own s (record (send s w (reject_queued w.req)) { queue = rest })
    returns :
        (s : System H) (n : ℕ)
        → s.worker ≡ stopped
        → s.rejecting ≡ suc n
        → s.queue ≡ []
        → Own s (record s { rejecting = n })

  pub data Step (s t : System H) : Type 0 where
    outer : Outer s t → Step s t
    own : Own s t → Step s t

  pub data Reach (s : System H) : System H → Type 0 where
    here : Reach s s
    next : {t u : System H} → Reach s t → Step t u → Reach s u
