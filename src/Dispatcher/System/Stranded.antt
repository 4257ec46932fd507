-- ===== src/Dispatcher/System/Stranded.antt =====
-- A race of internal/native/dispatcher.go: `enqueue` sends to the queue after `Shutdown` cleared it.
use golectron.Prelude.{◌<◌, ◌≤◌, ◌≡◌, refl, ap, true, false, ok, List, [], ◌∷◌, ◌++◌, arith}
use golectron.Dispatcher.{Request, Dispatcher, prepare}
use golectron.Dispatcher.System.{
  Work, stopped, System, initial, Outer, admits, enqueues, gives_up, fails, registers, unregisters,
  shuts_down, Own, takes, finishes, stops, rejects, returns, Step, outer, own, Reach, here, next,
  admitted, enqueued,
}

module _ {H : Type 0} where
  -- What can happen without a further call of `Shutdown`: no step that starts one of its goroutines.
  pub data Unaided (s : System H) : System H → Type 0 where
    still : Unaided s s
    goes_on : {t u : System H} → Unaided s t → Step t u → u.rejecting ≤ t.rejecting → Unaided s u

module _ {H : Type 0} (d d' : Dispatcher H) (req : Request) (req' : Request) (h : H)
    (opened : d.closed ≡ false) (room : 0 < d'.queue_size)
    (prepared : prepare req d ≡ (ok (req', h), d')) where
  abbrev pub late : Work H
  late = record { ticket = 0; req = req'; handler = h }

  abbrev cleared : System H
  cleared = record {
    dispatcher = record d' { closed = true };
    waiting = late ∷ [];
    queue = [];
    worker = stopped;
    rejecting = 0;
    answers = [];
    refused = [];
    next_ticket = 1;
  }

  Reach-cleared : Reach (initial d) cleared
  Reach-cleared =
      next
        (next
          (next (next here (outer (admits (initial d) req (req', h) d' opened prepared)))
            (outer (shuts_down (admitted (initial d) d' (req', h)))))
          (own (stops _ refl refl)))
        (own (returns _ 0 refl refl refl))

  -- A stopped loop with no `Shutdown` left takes no step.
  nobody_left : (s t : System H) → s.worker ≡ stopped → s.rejecting ≡ 0 → ¬ Own s t
  nobody_left s t e f (takes _ w rest g q) = cc (e, g)
  nobody_left s t e f (finishes _ w result g) = cc (e, g)
  nobody_left s t e f (stops _ g c) = cc (e, g)
  nobody_left s t e f (rejects _ n w rest g r q) = absurd (omega arith)
  nobody_left s t e f (returns _ n g r q) = absurd (omega arith)

  -- The loop has returned, no `Shutdown` is left, nothing was answered, and the request is queued.
  record IsLost (s : System H) : Type 0 where
    returned_loop : s.worker ≡ stopped
    no_shutdown : s.rejecting ≡ 0
    unanswered : s.answers ≡ []
    behind : List (Work H)
    queued : s.queue ≡ late ∷ behind

  Outer-IsLost : {s t : System H} → Outer s t → t.rejecting ≤ s.rejecting → IsLost s → IsLost t
  Outer-IsLost (admits s r w d e f) le l = record {
    returned_loop = l.returned_loop;
    no_shutdown = l.no_shutdown;
    unanswered = l.unanswered;
    behind = l.behind;
    queued = l.queued;
  }
  Outer-IsLost (enqueues s before after w e f) le l = record {
    returned_loop = l.returned_loop;
    no_shutdown = l.no_shutdown;
    unanswered = l.unanswered;
    behind = l.behind ++ w ∷ [];
    queued = ap (λ q. q ++ w ∷ []) l.queued;
  }
  Outer-IsLost (gives_up s before after w code e f) le l = record {
    returned_loop = l.returned_loop;
    no_shutdown = l.no_shutdown;
    unanswered = l.unanswered;
    behind = l.behind;
    queued = l.queued;
  }
  Outer-IsLost (fails s r code d e) le l = record {
    returned_loop = l.returned_loop;
    no_shutdown = l.no_shutdown;
    unanswered = l.unanswered;
    behind = l.behind;
    queued = l.queued;
  }
  Outer-IsLost (registers s c m g) le l = record {
    returned_loop = l.returned_loop;
    no_shutdown = l.no_shutdown;
    unanswered = l.unanswered;
    behind = l.behind;
    queued = l.queued;
  }
  Outer-IsLost (unregisters s c m) le l = record {
    returned_loop = l.returned_loop;
    no_shutdown = l.no_shutdown;
    unanswered = l.unanswered;
    behind = l.behind;
    queued = l.queued;
  }
  Outer-IsLost (shuts_down s) le l = absurd (omega arith)

  Unaided-IsLost : {s t : System H} → IsLost s → Unaided s t → IsLost t
  Unaided-IsLost l still = l
  Unaided-IsLost l (goes_on u (outer st) le) = Outer-IsLost st le (Unaided-IsLost l u)
  Unaided-IsLost l (goes_on {t = t} {u = u} r (own st) le) =
      let before = Unaided-IsLost l r in
      absurd (nobody_left t u before.returned_loop before.no_shutdown st)

  -- A request that an open dispatcher with room in its queue accepts can be queued although the
  -- dispatcher was shut down and `Shutdown` has cleared the queue, since the `select` of `enqueue`
  -- may choose to send. Then, whatever callers do, for as long as `Shutdown` is not called a further
  -- time: no goroutine of the dispatcher takes a step, no answer is sent, and the request stays the
  -- first of the queue.
  pub stranded :
      (s : System H) × Reach (initial d) s
      × ((t : System H)
          → Unaided s t
          → (t.answers ≡ [])
            × ((behind : List (Work H)) × (t.queue ≡ late ∷ behind))
            × ((u : System H) → ¬ Own t u))
  stranded = (
    enqueued cleared [] late [],
    next Reach-cleared (outer (enqueues cleared [] [] late refl room)),
    λ t r.
        let lost =
          Unaided-IsLost {s = enqueued cleared [] late []} {t = t}
            (record {
              returned_loop = refl;
              no_shutdown = refl;
              unanswered = refl;
              behind = [];
              queued = refl;
            })
            r in
        (
          lost.unanswered,
          (lost.behind, lost.queued),
          λ u. nobody_left t u lost.returned_loop lost.no_shutdown,
        ),
  )
