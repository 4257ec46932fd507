-- ===== src/Notification/History.antt =====
-- The history of internal/notification/notification.go: `Record` and `RemoveByID`.
use golectron.Prelude.{
  ◌≡◌, refl, Bool, true, false, not, ◌||◌, Option, none, some, List, [], ◌∷◌, ◌++◌, any,
  if◌then◌else◌, if-elim, Bool-cases, inl, inr, ◌⊎◌,
}
use golectron.Text.{Text, text_eq, is_empty, trim_space}
use golectron.Notification.{Options, Notification}

pub record History : Type 0 where
  pub items : List Options

-- `Record`; `none` is a nil notification.
pub record_shown : Option Notification → History → History
record_shown none h = h
record_shown (some n) h =
    if not n.shown || is_empty n.options.id
    then h
    else record h { items = h.items ++ n.options ∷ [] }

abbrev kept : Options → Bool × List Options → Bool × List Options
kept item rest = (rest.0, item ∷ rest.1)

-- The loop of `RemoveByID` over the items that are left: whether it found one, and what stays.
pub remove_loop : Text → List Options → Bool × List Options
remove_loop id [] = (false, [])
remove_loop id (item ∷ items) =
    let rest = remove_loop id items in if text_eq item.id id then (true, items) else kept item rest

pub remove_by_id : Text → History → Bool × History
remove_by_id id h =
    let removed = remove_loop (trim_space id) h.items in (removed.0, record h { items = removed.1 })

-- The items before and after the first with an identifier.
pub record IsFirst (id : Text) (items : List Options) (rest : List Options) : Type 0 where
  pub before : List Options
  pub item : Options
  pub behind : List Options
  pub split : items ≡ before ++ item ∷ behind
  pub others : any (λ o. text_eq o.id id) before ≡ false
  pub found : text_eq item.id id ≡ true
  pub rest_split : rest ≡ before ++ behind

record IsRemoved (id : Text) (items : List Options) (s : Bool × List Options) : Type 0 where
  none_found : s.0 ≡ false → (any (λ o. text_eq o.id id) items ≡ false) × (s.1 ≡ items)
  one_found : s.0 ≡ true → IsFirst id items s.1

kept-IsRemoved :
    (id : Text) (item : Options) (items : List Options) (s : Bool × List Options)
    → text_eq item.id id ≡ false
    → IsRemoved id items s
    → IsRemoved id (item ∷ items) (kept item s)
kept-IsRemoved id item items s e h = record {
  none_found = λ f. (rw (e, (h.none_found f).0) refl, rw ((h.none_found f).1) refl);
  one_found = λ f.
      let first = h.one_found f in
      record {
        before = item ∷ first.before;
        item = first.item;
        behind = first.behind;
        split = rw first.split refl;
        others = rw (e, first.others) refl;
        found = first.found;
        rest_split = rw first.rest_split refl;
      };
}

remove_loop-IsRemoved :
    (id : Text) (items : List Options) → IsRemoved id items (remove_loop id items)
unfolding remove_loop
remove_loop-IsRemoved id [] = record { none_found = λ f. (refl, refl); one_found = λ f. cc f }
remove_loop-IsRemoved id (item ∷ items) =
    if-elim (IsRemoved id (item ∷ items)) (text_eq item.id id)
      (λ e. record {
        none_found = λ f. cc f;
        one_found = λ f. record {
          before = [];
          item = item;
          behind = items;
          split = refl;
          others = refl;
          found = e;
          rest_split = refl;
        };
      })
      (λ e. kept-IsRemoved id item items (remove_loop id items) e (remove_loop-IsRemoved id items))

-- Removing by identifier either answers true and removes exactly the first item with the trimmed
-- identifier, or answers false, where no item has it and the history stays as it was.
pub remove_by_id_lem :
    (id : Text) (h : History)
    → (((remove_by_id id h).0 ≡ true) × IsFirst (trim_space id) h.items (remove_by_id id h).1.items)
      ⊎ ((remove_by_id id h ≡ (false, h))
          × (any (λ o. text_eq o.id (trim_space id)) h.items ≡ false))
unfolding remove_by_id
remove_by_id_lem id h =
    let removed = remove_loop-IsRemoved (trim_space id) h.items in
    elim (Bool-cases (remove_loop (trim_space id) h.items).0) [
      | inl e ↦ inl (e, removed.one_found e)
      | inr e ↦
          inr
            (λ i. (e i, record h { items = (removed.none_found e).1 i }), (removed.none_found e).0)
    ]
