-- ===== src/Dispatcher/Tests.antt =====
-- Runs of internal/native/dispatcher.go, and the theorems at a concrete dispatcher.
use golectron.Prelude.{
  ℕ, ◌+◌, ◌≤◌, ◌≡◌, ◌⊎◌, refl, pos, false, none, some, List, [], ◌∷◌, ok, arith, inl,
}
use golectron.Text.{codes}
use golectron.Dispatcher.{
  Request, Dispatcher, dispatch_key, assign_id, check_request, prepare, returned, handle,
}
use golectron.Dispatcher.Calls.{Decides, numbered, IsResponse, prepare-Decides, handle_lem}
use golectron.Dispatcher.System.{
  Work, busy, System, initial, admits, enqueues, Own, takes, outer, Reach, here, next, admitted,
  enqueued,
}
use golectron.Dispatcher.System.Places.{answered, IsTidy, Reach-IsTidy}
use golectron.Dispatcher.System.Order.{order, IsPrefix, Reach-order}
use golectron.Dispatcher.System.Drain.{Run, quiet, works, steps_left, IsAttended, Run-answers}
use golectron.Dispatcher.System.Stranded.{Unaided, stranded}

abbrev sample : Dispatcher ℕ
sample = record {
  handlers = λ c m. some 7;
  queue_size = 1;
  closed = false;
  next_id = 0;
  default_timeout = 1;
  max_payload_bytes = 4;
  max_response_bytes = 4;
  borrow_payload = false;
  policy = none;
}

abbrev used : Dispatcher ℕ
used = record sample { next_id = 1 }

abbrev ping : Request
ping = record {
  id = 0;
  browser_id = pos 1;
  frame_id = pos 1;
  origin = codes "app";
  capability = codes "fs";
  method = codes "read";
  payload = 1 ∷ 2 ∷ [];
  timeout = pos 0;
}

abbrev ping_one : Request
ping_one = record ping { id = 1 }

ping_prepared : prepare ping sample ≡ (ok (ping_one, 7), used)
unfolding prepare assign_id check_request dispatch_key
ping_prepared = refl

abbrev work : Work ℕ
work = record { ticket = 0; req = ping_one; handler = 7 }

abbrev asked : System ℕ
asked = admitted (initial sample) used (ping_one, 7)

abbrev queued : System ℕ
queued = enqueued asked [] work []

queued-Reach : Reach (initial sample) queued
queued-Reach =
    next (next here (outer (admits (initial sample) ping (ping_one, 7) used refl ping_prepared)))
      (outer (enqueues asked [] [] work refl (omega arith)))

Reach-IsTidy_example : IsTidy queued
Reach-IsTidy_example = Reach-IsTidy sample queued-Reach

Reach-order_example : IsPrefix (order (initial sample)) (order queued)
Reach-order_example = Reach-order queued-Reach

abbrev serving : System ℕ
serving = record queued { worker = busy work; queue = [] }

one_step : Run queued 1 serving
one_step = works quiet (takes queued work [] refl refl)

queued-IsAttended : IsAttended queued
queued-IsAttended = inl (λ e. cc e)

Run-answers_example :
    (1 + steps_left serving ≤ steps_left queued)
    × ((answered serving.answers ≡ order queued) ⊎ ((u : System ℕ) × Own serving u))
Run-answers_example = Run-answers sample refl queued-Reach queued-IsAttended one_step

stranded_example :
    (s : System ℕ) × Reach (initial sample) s
    × ((t : System ℕ)
        → Unaided s t
        → (t.answers ≡ [])
          × ((behind : List (Work ℕ)) × (t.queue ≡ work ∷ behind))
          × ((u : System ℕ) → ¬ Own t u))
stranded_example = stranded sample used ping ping_one 7 refl (omega arith) ping_prepared

prepare-Decides_example : Decides sample (numbered ping sample) (prepare ping sample).0
prepare-Decides_example = prepare-Decides sample ping

handle_lem_example :
    IsResponse used ping_one (returned (5 ∷ [])) (handle used ping_one (returned (5 ∷ [])))
handle_lem_example = handle_lem used ping_one (returned (5 ∷ []))
