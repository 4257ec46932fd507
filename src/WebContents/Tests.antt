-- ===== src/WebContents/Tests.antt =====
-- Runs of the navigation of internal/webcontents, and the theorems at concrete pages.
use golectron.Prelude.{
  ℕ, ◌≡◌, refl, Bool, true, false, pos, Option, none, some, List, [], ◌∷◌, ◌==◌, if◌then◌else◌,
}
use golectron.Callbacks.{run_handlers}
use golectron.Text.{Text}
use golectron.WebContents.{
  EventContext, WebContents, prevent_default, can_go_back, can_go_forward, commit_navigation,
  validate_url, emit, notify, load_committed, ask, load_url, show_entry, go_back, go_forward,
  load_url_call, go_back_call, go_forward_call, perform, run,
}
use golectron.WebContents.History.{Trail, at}

abbrev page : ℕ → Text
page n = n ∷ b':' ∷ []

-- An address is good if it is not empty; handler 1 cancels.
abbrev good : Text → Bool
good [] = false
good (c ∷ s) = true

abbrev quiet : ℕ → EventContext → WebContents ℕ → EventContext × WebContents ℕ
quiet h ctx wc = (if h == 1 then prevent_default ctx else ctx, wc)

abbrev second : WebContents ℕ
second = record {
  id = pos 1;
  current = page 2;
  history = page 1 ∷ page 2 ∷ page 3 ∷ [];
  index = pos 1;
  loading = false;
  handlers = λ e. [];
  events = [];
}

abbrev second_trail : Trail
second_trail = at (page 1 ∷ []) (page 2) (page 3 ∷ [])

abbrev landed : Option (WebContents ℕ) → Option (List Text)
landed none = none
landed (some wc) = some wc.history

-- Going back and loading a new page drops the pages ahead.
branched :
    landed (run good quiet (go_back_call ∷ load_url_call (page 9) ∷ go_forward_call ∷ []) second)
    ≡ some (page 1 ∷ page 9 ∷ [])
unfolding run perform go_back go_forward load_url load_committed show_entry ask notify emit
    run_handlers validate_url can_go_back can_go_forward commit_navigation
branched = refl
