-- ===== src/WebContents/Navigation.antt =====
-- Every navigation call does on the history and its index what the specification does on the
-- trail of pages, where the event handlers do not navigate themselves.
use golectron.Prelude.{
  ◌||◌, ◌≡◌, refl, Bool, true, false, ℤ, Option, none, some, List, [], ◌∷◌, if◌then◌else◌, if-elim,
  check-elim, arith,
}
use golectron.Callbacks.{run_handlers_inv}
use golectron.Text.{Text}
use golectron.WebContents.{
  Event, event_did_start_navigation, event_will_frame_navigate, event_will_navigate,
  event_did_frame_navigate, event_did_navigate, event_did_navigate_in_page, event_did_start_loading,
  event_did_stop_loading, event_did_finish_load, event_did_fail_load, NavigationError, invalid_url,
  navigation_cancelled, history_unavailable, NavigationDetails, EventContext, WebContents, entry,
  new, commit_navigation, main_frame, validate_url, emit, notify, load_committed, ask, load_url,
  navigate_in_page, fail_load, show_entry, go_back, go_forward, Call, load_url_call,
  navigate_in_page_call, fail_load_call, go_back_call, go_forward_call, perform, run,
}
use golectron.WebContents.History.{
  Trail, nowhere, at, visit, back, forward, Shows, available, Moves, commit_navigation-Depicts,
  can_go_back-available, can_go_forward-available, back-Moves, forward-Moves,
}

abbrev pub or_stay : Option Trail → Trail → Trail
or_stay none t = t
or_stay (some t') t = t'

-- The trail after a call with the answer `r`: an error leaves it as it is.
abbrev pub after : Call → Option NavigationError → Trail → Trail
after c (some e) t = t
after (load_url_call url) none t = visit url t
after (navigate_in_page_call url) none t = visit url t
after (fail_load_call url code description) none t = t
after go_back_call none t = or_stay (back t) t
after go_forward_call none t = or_stay (forward t) t

abbrev answer_if : Bool → NavigationError → Option NavigationError
answer_if test e = if test then none else some e

module _ {H : Type 0} (is_url : Text → Bool)
    (call : H → EventContext → WebContents H → EventContext × WebContents H)
    (keeps : (t : Trail) (h : H) (ctx : EventContext) (wc : WebContents H)
      → Shows wc t
      → Shows (call h ctx wc).1 t) where
  -- The answer of `LoadURL`: a bad address is refused, and a good one is loaded unless a handler of
  -- the first or of the second question cancels, the second being asked where the first leaves it.
  abbrev pub load_answer : Text → WebContents H → Option NavigationError
  load_answer url wc =
      let started = notify is_url call event_did_start_navigation (main_frame url) wc in
      let framed = emit is_url call event_will_frame_navigate (main_frame url) started in
      let asked = emit is_url call event_will_navigate (main_frame url) framed.1 in
      if is_url url
      then (if framed.0.cancelled || asked.0.cancelled then some navigation_cancelled else none)
      else some invalid_url

  -- The answer of a call on a page that shows the trail `t`.
  abbrev pub Answers : Call → Option NavigationError → Trail → WebContents H → Type 0
  Answers (load_url_call url) r t wc = r ≡ load_answer url wc
  Answers (navigate_in_page_call url) r t wc = r ≡ answer_if (is_url url) invalid_url
  Answers (fail_load_call url code description) r t wc = r ≡ answer_if (is_url url) invalid_url
  Answers go_back_call r t wc = r ≡ answer_if (available (back t)) history_unavailable
  Answers go_forward_call r t wc = r ≡ answer_if (available (forward t)) history_unavailable

  emit-Shows :
      (e : Event) (d : NavigationDetails) (t : Trail) (wc : WebContents H)
      → Shows wc t
      → Shows (emit is_url call e d wc).1 t
  unfolding emit
  emit-Shows e d t wc s =
      run_handlers_inv call (λ v. Shows v t) (keeps t) (wc.handlers e) _ _
        (record { shown = s.shown })

  notify-Shows :
      (e : Event) (d : NavigationDetails) (t : Trail) (wc : WebContents H)
      → Shows wc t
      → Shows (notify is_url call e d wc) t
  unfolding notify
  notify-Shows = emit-Shows

  loading-Shows :
      (b : Bool) (t : Trail) (wc : WebContents H) → Shows wc t → Shows (record wc { loading = b }) t
  loading-Shows b t wc s = record { shown = s.shown }

  commit_navigation-Shows :
      (url : Text) (t : Trail) (wc : WebContents H)
      → Shows wc t
      → Shows (commit_navigation url wc) (visit url t)
  commit_navigation-Shows url t wc s = record { shown = commit_navigation-Depicts wc url t s.shown }

  load_committed-Shows :
      (url : Text) (t : Trail) (wc : WebContents H)
      → Shows wc t
      → Shows (load_committed is_url call url wc) (visit url t)
  unfolding load_committed
  load_committed-Shows url t wc s = notify-Shows event_did_finish_load _ _ _ (
      notify-Shows event_did_stop_loading _ _ _ (
        loading-Shows false _ _ (
          notify-Shows event_did_navigate _ _ _ (
            notify-Shows event_did_frame_navigate _ _ _ (
              commit_navigation-Shows url t _
                (notify-Shows event_did_start_loading _ t _ (loading-Shows true t wc s)))))))

  -- A call's result on the trail `t`.
  abbrev Lands : Call → Trail → Option NavigationError × WebContents H → Type 0
  Lands c t (r, wc') = Shows wc' (after c r t)

  ask-Lands :
      (c : Call) (t : Trail) (e : Event) (d : NavigationDetails) (wc : WebContents H)
      (rest : WebContents H → Option NavigationError × WebContents H)
      → Shows wc t
      → ((wc' : WebContents H) → Shows wc' t → Lands c t (rest wc'))
      → Lands c t (ask is_url call e d wc rest)
  unfolding ask
  ask-Lands c t e d wc rest s next =
      if-elim (Lands c t) (emit is_url call e d wc).0.cancelled (λ _. emit-Shows e d t wc s)
        (λ _. next _ (emit-Shows e d t wc s))

  load_url-Lands :
      (url : Text) (t : Trail) (wc : WebContents H)
      → Shows wc t
      → Lands (load_url_call url) t (load_url is_url call url wc)
  unfolding load_url
  load_url-Lands url t wc s =
      check-elim (Lands (load_url_call url) t) (validate_url is_url call url) (λ e _. s)
        λ _.
          ask-Lands (load_url_call url) t event_will_frame_navigate _ _ _
            (notify-Shows event_did_start_navigation _ t wc s)
            λ v p.
              ask-Lands (load_url_call url) t event_will_navigate _ v _ p
                (load_committed-Shows url t)

  navigate_in_page-Lands :
      (url : Text) (t : Trail) (wc : WebContents H)
      → Shows wc t
      → Lands (navigate_in_page_call url) t (navigate_in_page is_url call url wc)
  unfolding navigate_in_page
  navigate_in_page-Lands url t wc s =
      check-elim (Lands (navigate_in_page_call url) t) (validate_url is_url call url) (λ e _. s)
        λ _.
          notify-Shows event_did_navigate_in_page _ _ _
            (commit_navigation-Shows url t _ (notify-Shows event_did_start_navigation _ t wc s))

  fail_load-Lands :
      (url : Text) (code : ℤ) (d : Text) (t : Trail) (wc : WebContents H)
      → Shows wc t
      → Lands (fail_load_call url code d) t (fail_load is_url call url code d wc)
  unfolding fail_load
  fail_load-Lands url code d t wc s =
      check-elim (Lands (fail_load_call url code d) t) (validate_url is_url call url) (λ e _. s)
        λ _. notify-Shows event_did_fail_load _ t _ (
          notify-Shows event_did_stop_loading _ t _ (
            loading-Shows false t _
              (notify-Shows event_did_start_loading _ t _ (loading-Shows true t wc s))))

  -- The call returns, with an answer and a page that fit the trail.
  abbrev pub Performs : Call → Trail → WebContents H → Type 0
  Performs c t wc =
      (r : Option NavigationError) × (wc' : WebContents H) × (perform is_url call c wc
        ≡ some (r, wc'))
      × Answers c r t wc
      × Shows wc' (after c r t)

  show_entry-Shows :
      (index : ℤ) (url : Text) (t : Trail) (wc : WebContents H)
      → Moves wc index url t
      → (wc' : WebContents H) × (show_entry is_url call index wc (entry index wc.history)
          ≡ some (none, wc'))
        × Shows wc' t
  unfolding show_entry
  show_entry-Shows index url t wc m =
      let landed = record wc { index = index; current = url } in
      (
        notify is_url call event_did_navigate (main_frame url) landed,
        rw (m.0) refl,
        notify-Shows event_did_navigate (main_frame url) t landed (record { shown = m.1 }),
      )

  go_back-Performs : (t : Trail) (wc : WebContents H) → Shows wc t → Performs go_back_call t wc
  unfolding perform go_back back
  go_back-Performs nowhere wc s =
      (some history_unavailable, wc, rw (can_go_back-available wc nowhere s.shown) refl, refl, s)
  go_back-Performs (at [] h a) wc s = (
    some history_unavailable,
    wc,
    rw (can_go_back-available wc (at [] h a) s.shown) refl,
    refl,
    s,
  )
  go_back-Performs (at (p ∷ b) h a) wc s =
      let (wc', e, s') = show_entry-Shows _ p _ wc (back-Moves wc p h b a s.shown) in
      (none, wc', rw (can_go_back-available wc (at (p ∷ b) h a) s.shown) e, refl, s')

  go_forward-Performs :
      (t : Trail) (wc : WebContents H) → Shows wc t → Performs go_forward_call t wc
  unfolding perform go_forward forward
  go_forward-Performs nowhere wc s =
      (some history_unavailable, wc, rw (can_go_forward-available wc nowhere s.shown) refl, refl, s)
  go_forward-Performs (at b h []) wc s = (
    some history_unavailable,
    wc,
    rw (can_go_forward-available wc (at b h []) s.shown) refl,
    refl,
    s,
  )
  go_forward-Performs (at b h (n ∷ a)) wc s =
      let (wc', e, s') = show_entry-Shows _ n _ wc (forward-Moves wc h n b a s.shown) in
      (none, wc', rw (can_go_forward-available wc (at b h (n ∷ a)) s.shown) e, refl, s')

  load_url_answer :
      (url : Text) (wc : WebContents H) → (load_url is_url call url wc).0 ≡ load_answer url wc
  unfolding load_url validate_url ask notify
  load_url_answer url wc = ground arith

  pub perform-Performs : (c : Call) (t : Trail) (wc : WebContents H) → Shows wc t → Performs c t wc
  unfolding perform
  perform-Performs (load_url_call url) t wc s =
      (_, _, refl, load_url_answer url wc, load_url-Lands url t wc s)
  perform-Performs (navigate_in_page_call url) t wc s = (
    _,
    _,
    refl,
    (unfold navigate_in_page validate_url in ground arith),
    navigate_in_page-Lands url t wc s,
  )
  perform-Performs (fail_load_call url code d) t wc s = (
    _,
    _,
    refl,
    (unfold fail_load validate_url in ground arith),
    fail_load-Lands url code d t wc s,
  )
  perform-Performs go_back_call t wc s = go_back-Performs t wc s
  perform-Performs go_forward_call t wc s = go_forward-Performs t wc s

  run-Shows :
      (cs : List Call) (t : Trail) (wc : WebContents H)
      → Shows wc t
      → (wc' : WebContents H) × (t' : Trail) × (run is_url call cs wc ≡ some wc') × Shows wc' t'
  unfolding run
  run-Shows [] t wc s = (wc, t, refl, s)
  run-Shows (c ∷ cs) t wc s =
      let (r, wc', e, _, s') = perform-Performs c t wc s in
      let (wc'', t'', e', s'') = run-Shows cs (after c r t) wc' s' in
      (wc'', t'', rw (e, run) e', s'')

  -- No history of navigation calls on a new page panics, and at its end the page shows a trail:
  -- the index is on the current address, and in range once there is one.
  pub run-new-Shows :
      (cs : List Call) (id : ℤ)
      → (wc : WebContents H) × (t : Trail) × (run is_url call cs (new id) ≡ some wc) × Shows wc t
  unfolding new
  run-new-Shows cs id = run-Shows cs nowhere (new id) (record { shown = (refl, refl, refl) })
