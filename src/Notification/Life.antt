-- ===== src/Notification/Life.antt =====
-- The life of a notification of internal/notification/notification.go, read off its event log.
use golectron.Prelude.{
  ℕ, ℤ, pos, negsuc, ◌≡◌, ◌<◌, refl, Bool, true, false, not, ◌&&◌, ◌||◌, Option, none, some, List,
  [], ◌∷◌, ◌++◌, Outcome, ok, err, All, All-append, length, ltb, if◌then◌else◌, if-elim,
  Outcome-cases, arith, ◌∙◌, sym, subst, inl, inr,
}
use golectron.Text.{Text, codes}
use golectron.Notification.{
  Options, unsigned, already_closed, EventRecord, event_show, event_click, event_close, event_reply,
  event_action, event_failed, Notification, NotificationError, or_else, normalize_options, new,
  show, click, activate_action, reply, close, log, unavailable, Call, show_call, click_call,
  activate_action_call, reply_call, close_call, perform, run,
}

-- The flags `shown` and `closed` after a log: it is shown until it is closed once; it is clicked and
-- answered only while it is on screen; a failed attempt changes nothing. `none` stands for a log
-- that no notification writes.
abbrev pub after : List EventRecord → Bool → Bool → Option (Bool × Bool)
after [] shown closed = some (shown, closed)
after (event_show ∷ es) shown closed = if closed then none else after es true closed
after (event_click ∷ es) shown closed = if shown && not closed then after es shown closed else none
after (event_close r ∷ es) shown closed = if closed then none else after es shown true
after (event_reply t ∷ es) shown closed =
    if shown && not closed then after es shown closed else none
after (event_action i ∷ es) shown closed =
    if shown && not closed then after es shown closed else none
after (event_failed f ∷ es) shown closed = after es shown closed

abbrev then_event : Option (Bool × Bool) → EventRecord → Option (Bool × Bool)
then_event none e = none
then_event (some (shown, closed)) e = after (e ∷ []) shown closed

after-snoc :
    (es : List EventRecord) (s c : Bool) (e : EventRecord)
    → after (es ++ e ∷ []) s c ≡ then_event (after es s c) e
after-snoc [] s c e = refl
after-snoc (event_show ∷ es) s true e = refl
after-snoc (event_show ∷ es) s false e = after-snoc es true false e
after-snoc (event_click ∷ es) false c e = refl
after-snoc (event_click ∷ es) true true e = refl
after-snoc (event_click ∷ es) true false e = after-snoc es true false e
after-snoc (event_close r ∷ es) s true e = refl
after-snoc (event_close r ∷ es) s false e = after-snoc es s true e
after-snoc (event_reply t ∷ es) false c e = refl
after-snoc (event_reply t ∷ es) true true e = refl
after-snoc (event_reply t ∷ es) true false e = after-snoc es true false e
after-snoc (event_action i ∷ es) false c e = refl
after-snoc (event_action i ∷ es) true true e = refl
after-snoc (event_action i ∷ es) true false e = after-snoc es true false e
after-snoc (event_failed f ∷ es) s c e = after-snoc es s c e

-- Every action of a log is one of the first `n`.
abbrev pub InRange : ℕ → EventRecord → Type 0
InRange n (event_action i) = i < n
InRange n event_show = Unit {0}
InRange n event_click = Unit {0}
InRange n (event_close r) = Unit {0}
InRange n (event_reply t) = Unit {0}
InRange n (event_failed f) = Unit {0}

-- The log agrees with the flags, its actions exist, and an unsigned application shows nothing.
pub record IsConsistent (n : Notification) : Type 0 where
  pub logged : after n.events false false ≡ some (n.shown, n.closed)
  pub in_range : All (InRange (length n.options.actions)) n.events
  pub unsigned_hidden : n.options.unsigned_app ≡ true → n.shown ≡ false

-- One more event that the flags allow.
logged_more :
    (n : Notification) (e : EventRecord) (s c : Bool)
    → IsConsistent n
    → after (e ∷ []) n.shown n.closed ≡ some (s, c)
    → InRange (length n.options.actions) e
    → (n.options.unsigned_app ≡ true → s ≡ false)
    → IsConsistent (record n { shown = s; closed = c; events = n.events ++ e ∷ [] })
logged_more n e s c h allowed ranged hidden = record {
  logged = after-snoc n.events false false e ∙ rw (h.logged) allowed;
  in_range =
      All-append (InRange (length n.options.actions)) n.events (e ∷ []) h.in_range (ranged, tt);
  unsigned_hidden = hidden;
}

show-IsConsistent : (n : Notification) → IsConsistent n → IsConsistent (show n)
unfolding show
show-IsConsistent n h =
    if-elim IsConsistent n.options.unsigned_app
      (λ _. logged_more n (event_failed unsigned) n.shown n.closed h refl tt h.unsigned_hidden)
      (λ signed.
        if-elim IsConsistent n.closed
          (λ _.
            logged_more n (event_failed already_closed) n.shown n.closed h refl tt
              h.unsigned_hidden)
          (λ open_still.
            logged_more n event_show true n.closed h (rw open_still refl) tt (λ u. cc (u, signed))))

-- An event that needs the notification on screen.
on_screen :
    (n : Notification) (e : EventRecord)
    → IsConsistent n
    → (after (e ∷ []) n.shown n.closed
        ≡ (if n.shown && not n.closed then some (n.shown, n.closed) else none))
    → n.shown && not n.closed ≡ true
    → InRange (length n.options.actions) e
    → IsConsistent (log e n)
on_screen n e h step shown ranged =
    logged_more n e n.shown n.closed h (step ∙ rw shown refl) ranged h.unsigned_hidden

available_if : (s c : Bool) → not s || c ≡ false → s && not c ≡ true
available_if s c e = ground arith

below : (i n : ℕ) → not (ltb i n) ≡ false → i < n
below i n e = ground arith

click-IsConsistent : (n : Notification) → IsConsistent n → IsConsistent (click n)
unfolding click
click-IsConsistent n h =
    if-elim IsConsistent (n.shown && not n.closed) (λ e. on_screen n event_click h refl e tt)
      (λ _. h)

activate_action-IsConsistent :
    (i : ℤ) (n : Notification) → IsConsistent n → IsConsistent (activate_action i n).1
unfolding activate_action
activate_action-IsConsistent (negsuc i) n h =
    if-elim (λ (s : Option NotificationError × Notification). IsConsistent s.1) (unavailable n)
      (λ _. h) (λ _. h)
activate_action-IsConsistent (pos i) n h =
    if-elim (λ (s : Option NotificationError × Notification). IsConsistent s.1) (unavailable n)
      (λ _. h)
      (λ e.
        if-elim (λ (s : Option NotificationError × Notification). IsConsistent s.1)
          (not (ltb i (length n.options.actions))) (λ _. h)
          (λ f.
            on_screen n (event_action i) h refl (available_if n.shown n.closed e)
              (below i (length n.options.actions) f)))

reply-IsConsistent : (t : Text) (n : Notification) → IsConsistent n → IsConsistent (reply t n).1
unfolding reply
reply-IsConsistent t n h =
    if-elim (λ (s : Option NotificationError × Notification). IsConsistent s.1) (unavailable n)
      (λ _. h)
      (λ e.
        if-elim (λ (s : Option NotificationError × Notification). IsConsistent s.1)
          (not n.options.has_reply) (λ _. h)
          (λ _. on_screen n (event_reply t) h refl (available_if n.shown n.closed e) tt))

close-IsConsistent : (r : Text) (n : Notification) → IsConsistent n → IsConsistent (close r n)
unfolding close
close-IsConsistent r n h =
    if-elim IsConsistent n.closed (λ _. h)
      (λ e.
        logged_more n (event_close (or_else r (codes "unknown"))) n.shown true h (rw e refl) tt
          h.unsigned_hidden)

perform-IsConsistent : (c : Call) (n : Notification) → IsConsistent n → IsConsistent (perform c n)
unfolding perform
perform-IsConsistent show_call n h = show-IsConsistent n h
perform-IsConsistent click_call n h = click-IsConsistent n h
perform-IsConsistent (activate_action_call i) n h = activate_action-IsConsistent i n h
perform-IsConsistent (reply_call t) n h = reply-IsConsistent t n h
perform-IsConsistent (close_call r) n h = close-IsConsistent r n h

run-Consistent : (cs : List Call) (n : Notification) → IsConsistent n → IsConsistent (run cs n)
unfolding run
run-Consistent [] n h = h
run-Consistent (c ∷ cs) n h = run-Consistent cs (perform c n) (perform-IsConsistent c n h)

new_at :
    (o n : Options)
    → normalize_options o ≡ ok n
    → new o ≡ ok (record { options = n; shown = false; closed = false; events = [] })
unfolding new
new_at o n e = rw (e, new) refl

new_refused : (o : Options) (e : NotificationError) → normalize_options o ≡ err e → new o ≡ err e
unfolding new
new_refused o e h = rw (h, new) refl

made : {n m : Notification} → Path (Outcome NotificationError Notification) (ok n) (ok m) → n ≡ m
made e = cc e

new-IsConsistent : (o : Options) (n : Notification) → new o ≡ ok n → IsConsistent n
new-IsConsistent o n h = elim (Outcome-cases (normalize_options o)) [
  | inl (m, e) ↦
      subst IsConsistent (made (sym (new_at o m e) ∙ h))
        (record { logged = refl; in_range = tt; unsigned_hidden = λ u. refl })
  | inr (x, e) ↦ cc (h, new_refused o x e)
]

-- Whatever calls a notification that was made has answered, its log shows it only before it is
-- closed, closes it at most once, and clicks it or answers it only in between, where a failed
-- attempt may come at any time; the flags `shown` and `closed` are those of the log; each action in
-- it is one of the options' actions; and an unsigned application's notification is not shown.
pub run-new-IsConsistent :
    (o : Options) (n : Notification) (cs : List Call) → new o ≡ ok n → IsConsistent (run cs n)
run-new-IsConsistent o n cs h = run-Consistent cs n (new-IsConsistent o n h)
