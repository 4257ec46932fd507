-- ===== src/WebContents.antt =====
-- internal/webcontents/webcontents.go: navigation, its events and the history of one page.
-- `url.Parse` is a parameter, `is_url`: it succeeds and the result has a scheme. Event handlers
-- are application code; `call` is what they do to the event and, by calls, to the page.
pub mod History
pub mod Navigation
mod Tests
use mathlib.Core.Logic.{ite}
use golectron.Prelude.{
  ℕ, zero, suc, ◌+◌, ◌-◌, Bool, true, false, ◌&&◌, not, ℤ, pos, negsuc, is_positive, is_negative,
  increment, decrement, Option, none, some, List, [], ◌∷◌, ◌++◌, length, get_elem?, take, ltb,
  if◌then◌else◌, check,
}
use golectron.Callbacks.{run_handlers}
use golectron.Text.{Text}

pub data Event : Type 0 where
  event_did_start_navigation event_will_frame_navigate event_will_navigate : Event
  event_did_frame_navigate event_did_navigate event_did_navigate_in_page : Event
  event_did_start_loading event_did_stop_loading event_did_finish_load : Event
  event_did_fail_load : Event

pub Event-discrete : Discrete Event
Event-discrete = hlevel

pub data NavigationError : Type 0 where
  invalid_url navigation_cancelled history_unavailable : NavigationError

pub record NavigationDetails : Type 0 where
  pub url : Text
  pub is_same_document : Bool
  pub is_main_frame : Bool
  pub error_code : ℤ
  pub error : Text

pub record EventContext : Type 0 where
  pub event : Event
  pub details : NavigationDetails
  pub cancelled : Bool

pub prevent_default : EventContext → EventContext
prevent_default ctx = record ctx { cancelled = true }

-- `index` is -1 before the first navigation.
pub record WebContents (H : Type 0) : Type 0 where
  pub id : ℤ
  pub current : Text
  pub history : List Text
  pub index : ℤ
  pub loading : Bool
  pub handlers : Event → List H
  pub events : List Event

-- `history[:index+1]`, and the element at `index`; `none` is a panic.
abbrev pub upto : ℤ → List Text → List Text
upto (pos i) urls = take (suc i) urls
upto (negsuc i) urls = []

abbrev pub entry : ℤ → List Text → Option Text
entry (pos i) urls = get_elem? urls i
entry (negsuc i) urls = none

-- `index < len(history)-1`
abbrev pub before_last : ℤ → List Text → Bool
before_last (pos i) urls = ltb (i + 1) (length urls)
before_last (negsuc zero) urls = ltb 0 (length urls)
before_last (negsuc (suc i)) urls = true

module _ {H : Type 0} where
  pub new : ℤ → WebContents H
  new id = record {
    id = id;
    current = [];
    history = [];
    index = negsuc 0;
    loading = false;
    handlers = λ event. [];
    events = [];
  }

  -- A `nil` handler is `none`.
  pub on : Event → Option H → WebContents H → WebContents H
  on event none wc = wc
  on event (some h) wc = record wc {
    handlers = λ e. ite (Event-discrete e event) (wc.handlers e ++ h ∷ []) (wc.handlers e);
  }

  pub can_go_back : WebContents H → Bool
  can_go_back wc = is_positive wc.index

  pub can_go_forward : WebContents H → Bool
  can_go_forward wc = not (is_negative wc.index) && before_last wc.index wc.history

  pub commit_navigation : Text → WebContents H → WebContents H
  commit_navigation raw_url wc =
      let kept = if before_last wc.index wc.history then upto wc.index wc.history else wc.history in
      record wc {
        history = kept ++ raw_url ∷ [];
        index = pos (length (kept ++ raw_url ∷ []) - 1);
        current = raw_url;
      }

abbrev pub main_frame : Text → NavigationDetails
main_frame raw_url = record {
  url = raw_url;
  is_same_document = false;
  is_main_frame = true;
  error_code = pos 0;
  error = [];
}

module _ {H : Type 0} (is_url : Text → Bool)
    (call : H → EventContext → WebContents H → EventContext × WebContents H) where
  pub validate_url : Text → Option NavigationError
  validate_url raw_url = if is_url raw_url then none else some invalid_url

  pub emit : Event → NavigationDetails → WebContents H → EventContext × WebContents H
  emit event details wc =
      run_handlers call (wc.handlers event)
        (record { event = event; details = details; cancelled = false })
        (record wc { events = wc.events ++ event ∷ [] })

  pub notify : Event → NavigationDetails → WebContents H → WebContents H
  notify event details wc = (emit event details wc).1

  -- The rest of `LoadURL`, once no handler has cancelled.
  pub load_committed : Text → WebContents H → WebContents H
  load_committed raw_url wc =
      let details = main_frame raw_url in
      let started = notify event_did_start_loading details (record wc { loading = true }) in
      let framed = notify event_did_frame_navigate details (commit_navigation raw_url started) in
      let navigated = notify event_did_navigate details framed in
      let stopped = notify event_did_stop_loading details (record navigated { loading = false }) in
      notify event_did_finish_load details stopped

  -- `if wc.emit(event, details).DefaultPrevented() { return ErrNavigationCancelled }`
  pub ask :
      Event
      → NavigationDetails
      → WebContents H
      → (WebContents H → Option NavigationError × WebContents H)
      → Option NavigationError × WebContents H
  ask event details wc rest =
      let (ctx, wc') = emit event details wc in
      if ctx.cancelled then (some navigation_cancelled, wc') else rest wc'

  pub load_url : Text → WebContents H → Option NavigationError × WebContents H
  load_url raw_url wc =
      let details = main_frame raw_url in
      check (validate_url raw_url) wc (
        ask event_will_frame_navigate details (notify event_did_start_navigation details wc)
          λ framed.
            ask event_will_navigate details framed λ asked. (none, load_committed raw_url asked))

  pub navigate_in_page : Text → WebContents H → Option NavigationError × WebContents H
  navigate_in_page raw_url wc =
      let details = record (main_frame raw_url) { is_same_document = true } in
      check (validate_url raw_url) wc (
        none,
        notify event_did_navigate_in_page details
            (commit_navigation raw_url (notify event_did_start_navigation details wc)),
      )

  pub fail_load : Text → ℤ → Text → WebContents H → Option NavigationError × WebContents H
  fail_load raw_url code description wc =
      let details = record (main_frame raw_url) { error_code = code; error = description } in
      let started = notify event_did_start_loading details (record wc { loading = true }) in
      let stopped = notify event_did_stop_loading details (record started { loading = false }) in
      check (validate_url raw_url) wc (none, notify event_did_fail_load details stopped)

  -- The read of the entry at the new index; `none` is a panic.
  pub show_entry : ℤ → WebContents H → Option Text → Option (Option NavigationError × WebContents H)
  show_entry index wc none = none
  show_entry index wc (some url) = some (
    none,
    notify event_did_navigate (main_frame url) (record wc { index = index; current = url }),
  )

  pub go_back : WebContents H → Option (Option NavigationError × WebContents H)
  go_back wc =
      let index = decrement wc.index in
      if can_go_back wc
      then show_entry index wc (entry index wc.history)
      else some (some history_unavailable, wc)

  pub go_forward : WebContents H → Option (Option NavigationError × WebContents H)
  go_forward wc =
      let index = increment wc.index in
      if can_go_forward wc
      then show_entry index wc (entry index wc.history)
      else some (some history_unavailable, wc)

-- The calls that navigate.
pub data Call : Type 0 where
  load_url_call navigate_in_page_call : Text → Call
  fail_load_call : Text → ℤ → Text → Call
  go_back_call go_forward_call : Call

module _ {H : Type 0} (is_url : Text → Bool)
    (call : H → EventContext → WebContents H → EventContext × WebContents H) where
  pub perform : Call → WebContents H → Option (Option NavigationError × WebContents H)
  perform (load_url_call url) wc = some (load_url is_url call url wc)
  perform (navigate_in_page_call url) wc = some (navigate_in_page is_url call url wc)
  perform (fail_load_call url code description) wc =
      some (fail_load is_url call url code description wc)
  perform go_back_call wc = go_back is_url call wc
  perform go_forward_call wc = go_forward is_url call wc

  -- A history of calls, each from where the one before left the page; a panic ends it.
  pub run : List Call → WebContents H → Option (WebContents H)
  run [] wc = some wc
  run (c ∷ cs) wc = elim (perform c wc) [ none ↦ none | some (r, wc') ↦ run cs wc' ]
