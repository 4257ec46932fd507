-- ===== src/Dispatcher/System/Order.antt =====
-- The order of answers of internal/native/dispatcher.go.
use golectron.Prelude.{ℕ, ◌≡◌, refl, sym, ap, ◌∙◌, List, [], ◌∷◌, ◌++◌, append_assoc, append-nil}
use golectron.Dispatcher.{Response}
use golectron.Dispatcher.System.{
  System, Outer, admits, enqueues, gives_up, fails, registers, unregisters, shuts_down, Own, takes,
  finishes, stops, rejects, returns, Step, outer, own, Reach, here, next,
}
use golectron.Dispatcher.System.Places.{tickets, tickets-append, in_work, answered}

answered-append : (a b : List (ℕ × Response)) → answered (a ++ b) ≡ answered a ++ answered b
answered-append [] b = refl
answered-append (x ∷ a) b = ap (λ l. x.0 ∷ l) (answered-append a b)

-- One list goes on where another ends.
pub record IsPrefix (us vs : List ℕ) : Type 0 where
  pub more : List ℕ
  pub extends : vs ≡ us ++ more

IsPrefix-refl : (us : List ℕ) → IsPrefix us us
IsPrefix-refl us = record { more = []; extends = sym (append-nil us) }

IsPrefix-trans : {us vs ws : List ℕ} → IsPrefix us vs → IsPrefix vs ws → IsPrefix us ws
IsPrefix-trans {us} p q = record {
  more = p.more ++ q.more;
  extends = q.extends ∙ ap (λ l. l ++ q.more) p.extends ∙ append_assoc us p.more q.more;
}

module _ {H : Type 0} where
  -- The requests that were queued, in the order in which they leave: answered, served, queued.
  abbrev pub order : System H → List ℕ
  order s = answered s.answers ++ (in_work s.worker ++ tickets s.queue)

  Outer-order : {s t : System H} → Outer s t → IsPrefix (order s) (order t)
  Outer-order (admits s req work d opened e) = IsPrefix-refl (order s)
  Outer-order (enqueues s before behind w e space) = record {
    more = w.ticket ∷ [];
    extends = simp (tickets-append, append_assoc);
  }
  Outer-order (gives_up s before behind w code e why) = IsPrefix-refl (order s)
  Outer-order (fails s req code d e) = IsPrefix-refl (order s)
  Outer-order (registers s c m f) = IsPrefix-refl (order s)
  Outer-order (unregisters s c m) = IsPrefix-refl (order s)
  Outer-order (shuts_down s) = IsPrefix-refl (order s)

  pub Own-order : {s t : System H} → Own s t → order t ≡ order s
  Own-order (takes s w rest e f) = rw (e, f) refl
  Own-order (finishes s w result e) =
      rw (e, answered-append) (append_assoc (answered s.answers) (w.ticket ∷ []) (tickets s.queue))
  Own-order (stops s e closed) = rw e refl
  Own-order (rejects s n w rest e r f) =
      rw (e, f, answered-append) (append_assoc (answered s.answers) (w.ticket ∷ []) (tickets rest))
  Own-order (returns s n e r f) = refl

  Step-order : {s t : System H} → Step s t → IsPrefix (order s) (order t)
  Step-order (outer st) = Outer-order st
  Step-order (own st) = record { more = []; extends = Own-order st ∙ sym (append-nil _) }

  -- Requests are answered in the order in which they were queued: whatever happens, the requests
  -- that are answered, served and queued, in this order, are those of before and then others.
  pub Reach-order : {s t : System H} → Reach s t → IsPrefix (order s) (order t)
  Reach-order {s} here = IsPrefix-refl (order s)
  Reach-order (next r st) = IsPrefix-trans (Reach-order r) (Step-order st)
