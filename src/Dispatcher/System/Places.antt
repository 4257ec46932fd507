-- ===== src/Dispatcher/System/Places.antt =====
-- Where the requests of internal/native/dispatcher.go are: each in one place, and the queue within
-- its bound.
use golectron.Prelude.{
  ℕ, ◌+◌, ◌≤◌, ◌≡◌, refl, sym, ap, ◌∙◌, Bool, true, false, Option, List, [], ◌∷◌, ◌++◌, Outcome,
  length, length-append, ltb, ◌==◌, arith, subst,
}
use golectron.Text.{Text}
use golectron.Dispatcher.{
  DispatchErrorCode, Request, Response, Dispatcher, register, unregister, assign_id, prepare,
  handle, reject_queued,
}
use golectron.Dispatcher.System.{
  Work, Worker, idle, stopped, busy, System, initial, Outer, admits, enqueues, gives_up, fails,
  registers, unregisters, shuts_down, Own, takes, finishes, stops, rejects, returns, Step, outer,
  own, Reach, here, next,
}

abbrev one_if : Bool → ℕ
one_if true = 1
one_if false = 0

-- How often a ticket stands in a list.
abbrev pub count : ℕ → List ℕ → ℕ
count t [] = 0
count t (u ∷ us) = one_if (u == t) + count t us

count-append : (t : ℕ) (us vs : List ℕ) → count t (us ++ vs) ≡ count t us + count t vs
count-append t [] vs = omega arith
count-append t (u ∷ us) vs = omega (arith, count-append t us vs)

abbrev pub answered : List (ℕ × Response) → List ℕ
answered [] = []
answered (a ∷ rest) = a.0 ∷ answered rest

pub answered-append :
    (t : ℕ) (a b : List (ℕ × Response))
    → count t (answered (a ++ b)) ≡ count t (answered a) + count t (answered b)
answered-append t [] b = omega arith
answered-append t (x ∷ a) b = omega (arith, answered-append t a b)

module _ {H : Type 0} where
  abbrev pub tickets : List (Work H) → List ℕ
  tickets [] = []
  tickets (w ∷ ws) = w.ticket ∷ tickets ws

  pub tickets-append : (vs ws : List (Work H)) → tickets (vs ++ ws) ≡ tickets vs ++ tickets ws
  tickets-append [] ws = refl
  tickets-append (v ∷ vs) ws = ap (λ l. v.ticket ∷ l) (tickets-append vs ws)

  count-tickets-snoc :
      (t : ℕ) (ws : List (Work H)) (w : Work H)
      → count t (tickets (ws ++ w ∷ [])) ≡ count t (tickets ws) + one_if (w.ticket == t)
  count-tickets-snoc t [] w = omega arith
  count-tickets-snoc t (v ∷ ws) w = omega (arith, count-tickets-snoc t ws w)

  abbrev last_work : System H → Request × H → Work H
  last_work s (req, h) = record { ticket = s.next_ticket; req = req; handler = h }

  count-insert :
      (t : ℕ) (before behind : List (Work H)) (w : Work H)
      → count t (tickets (before ++ w ∷ behind))
        ≡ count t (tickets (before ++ behind)) + one_if (w.ticket == t)
  count-insert t [] behind w = omega arith
  count-insert t (v ∷ before) behind w = omega (arith, count-insert t before behind w)

  abbrev pub in_work : Worker H → List ℕ
  in_work idle = []
  in_work stopped = []
  in_work (busy w) = w.ticket ∷ []

  -- How often a ticket stands in any of the five places.
  abbrev pub places : ℕ → System H → ℕ
  places t s =
      count t (tickets s.waiting)
      + count t (tickets s.queue)
      + count t (in_work s.worker)
      + count t (answered s.answers)
      + count t s.refused

  pub record IsTidy (s : System H) : Type 0 where
    pub placed : (t : ℕ) → places t s ≡ one_if (ltb t s.next_ticket)
    pub bounded : length s.queue ≤ s.dispatcher.queue_size

  register-queue_size :
      (c m : Text) (h : Option H) (d : Dispatcher H)
      → (register c m h d).1.queue_size ≡ d.queue_size
  unfolding register
  register-queue_size c m h d = ground arith

  unregister-queue_size :
      (c m : Text) (d : Dispatcher H) → (unregister c m d).1.queue_size ≡ d.queue_size
  unfolding unregister
  unregister-queue_size c m d = ground arith

  prepare-queue_size :
      (req : Request) (d : Dispatcher H) → (prepare req d).1.queue_size ≡ d.queue_size
  unfolding prepare assign_id
  prepare-queue_size req d = ground arith

  Outer-IsTidy : {s t : System H} → Outer s t → IsTidy s → IsTidy t
  Outer-IsTidy (admits s req work d opened e) h = record {
    placed = λ t. ground (arith, h.placed t, count-tickets-snoc t s.waiting (last_work s work));
    bounded =
        subst (λ n. length s.queue ≤ n)
          (sym (prepare-queue_size req s.dispatcher)
            ∙ ap (λ (r : Outcome DispatchErrorCode (Request × H) × Dispatcher H). r.1.queue_size) e)
          h.bounded;
  }
  Outer-IsTidy (enqueues s before behind w e space) h = record {
    placed = λ t. omega (
      arith,
      h.placed t,
      ap (λ l. count t (tickets l)) e,
      count-insert t before behind w,
      count-tickets-snoc t s.queue w,
    );
    bounded = omega (arith, length-append s.queue (w ∷ []));
  }
  Outer-IsTidy (gives_up s before behind w code e why) h = record {
    placed = λ t. omega (
      arith,
      h.placed t,
      ap (λ l. count t (tickets l)) e,
      count-insert t before behind w,
      count-append t s.refused (w.ticket ∷ []),
    );
    bounded = h.bounded;
  }
  Outer-IsTidy (fails s req code d e) h = record {
    placed = h.placed;
    bounded =
        subst (λ n. length s.queue ≤ n)
          (sym (prepare-queue_size req s.dispatcher)
            ∙ ap (λ (r : Outcome DispatchErrorCode (Request × H) × Dispatcher H). r.1.queue_size) e)
          h.bounded;
  }
  Outer-IsTidy (registers s c m f) h = record {
    placed = h.placed;
    bounded = rw (register-queue_size c m f s.dispatcher) h.bounded;
  }
  Outer-IsTidy (unregisters s c m) h = record {
    placed = h.placed;
    bounded = rw (unregister-queue_size c m s.dispatcher) h.bounded;
  }
  Outer-IsTidy (shuts_down s) h = record { placed = h.placed; bounded = h.bounded }

  Own-IsTidy : {s t : System H} → Own s t → IsTidy s → IsTidy t
  Own-IsTidy (takes s w rest e f) h = record {
    placed = λ t.
        omega (arith, h.placed t, ap (λ l. count t (tickets l)) f, ap (λ v. count t (in_work v)) e);
    bounded = omega (arith, h.bounded, ap length f);
  }
  Own-IsTidy (finishes s w result e) h = record {
    placed = λ t. omega (
      arith,
      h.placed t,
      ap (λ v. count t (in_work v)) e,
      answered-append t s.answers ((w.ticket, handle s.dispatcher w.req result) ∷ []),
    );
    bounded = h.bounded;
  }
  Own-IsTidy (stops s e closed) h = record {
    placed = λ t. omega (arith, h.placed t, ap (λ v. count t (in_work v)) e);
    bounded = h.bounded;
  }
  Own-IsTidy (rejects s n w rest e r f) h = record {
    placed = λ t. omega (
      arith,
      h.placed t,
      ap (λ l. count t (tickets l)) f,
      answered-append t s.answers ((w.ticket, reject_queued w.req) ∷ []),
    );
    bounded = omega (arith, h.bounded, ap length f);
  }
  Own-IsTidy (returns s n e r f) h = record { placed = h.placed; bounded = h.bounded }

  Step-IsTidy : {s t : System H} → Step s t → IsTidy s → IsTidy t
  Step-IsTidy (outer st) h = Outer-IsTidy st h
  Step-IsTidy (own st) h = Own-IsTidy st h

  initial-IsTidy : (d : Dispatcher H) → IsTidy (initial d)
  initial-IsTidy d = record { placed = λ t. ground arith; bounded = omega arith }

  -- However callers, the loop and shutdowns interleave, each ticket that was given stands in
  -- exactly one place: its caller waits, it is queued, it is served, it has an answer or it was
  -- refused. So no request is answered twice, none is lost, and no answer blocks its sender. The
  -- queue stays within its size.
  pub Reach-IsTidy : (d : Dispatcher H) {s : System H} → Reach (initial d) s → IsTidy s
  Reach-IsTidy d here = initial-IsTidy d
  Reach-IsTidy d (next r st) = Step-IsTidy st (Reach-IsTidy d r)
