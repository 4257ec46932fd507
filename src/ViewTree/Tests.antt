-- ===== src/ViewTree/Tests.antt =====
-- Runs of the view tree of internal/view, and the theorems at concrete trees. View 0 holds views 1
-- and 2; view 3 stands alone.
use golectron.Prelude.{ℕ, ◌≡◌, refl, true, pos, negsuc, none, some, List, [], ◌∷◌, arith}
use golectron.ViewTree.Refs.{remove_child_ref, insert_at}
use golectron.ViewTree.{
  Heap, Event, Rect, SetBoundsOptions, invalid_child, new, set_bounds, set_children, set_parent,
  remove_child, detach, attach, add_child, clamp, validate_bounds, rect_eq, options_eq, Call,
  add_child_call, perform, run,
}
use golectron.ViewTree.Links.{IsLinked, run-new-IsLinked}
use golectron.ViewTree.Adding.{add_child_lem, add_child_cycle}

abbrev quiet : ℕ → Event → Heap ℕ → Heap ℕ
quiet h e heap = heap

abbrev fresh : Heap ℕ
fresh v = new (pos v)

abbrev history : List (Call ℕ)
history =
    add_child_call 0 (some 1) none
    ∷ add_child_call 0 (some 2) (some (negsuc 7))
    ∷ add_child_call 3 (some 1) none
    ∷ add_child_call 0 (some 1) (some (pos 9))
    ∷ []

abbrev tree : Heap ℕ
tree = run quiet history fresh

tree_children : (tree 0).children ≡ 2 ∷ 1 ∷ []
unfolding run perform add_child attach detach remove_child set_children set_parent clamp
    remove_child_ref insert_at new
tree_children = refl

tree_self : (add_child 0 (some 0) none tree).0 ≡ some invalid_child
unfolding add_child
tree_self = refl

tree-IsLinked : IsLinked tree
tree-IsLinked = run-new-IsLinked quiet (λ h e heap l. l) (λ v. pos v) history

run-new-IsLinked_example : IsLinked tree
run-new-IsLinked_example = run-new-IsLinked quiet (λ h e heap l. l) (λ v. pos v) history

add_child_lem_example : ((add_child 3 (some 2) none tree).1 2).parent ≡ some 3
add_child_lem_example = (add_child_lem 3 2 none tree (λ e. absurd (omega arith)) tree-IsLinked).1

tree_parent : (tree 1).parent ≡ some 0
unfolding run perform add_child attach detach remove_child set_children set_parent clamp
    remove_child_ref insert_at new
tree_parent = refl

add_child_cycle_example :
    ((add_child 1 (some 0) none tree).0 ≡ none)
    × (((add_child 1 (some 0) none tree).1 1).parent ≡ some 0)
    × (((add_child 1 (some 0) none tree).1 0).parent ≡ some 1)
add_child_cycle_example = add_child_cycle 1 0 none tree (λ e. absurd (omega arith)) tree_parent

abbrev box : Rect
box = record { x = pos 0; y = negsuc 2; width = pos 30; height = pos 20 }

abbrev slow : SetBoundsOptions
slow = record { animate = true; duration = pos 250 }

set_bounds_accepted : (set_bounds quiet box slow 1 fresh).0 ≡ none
unfolding set_bounds validate_bounds rect_eq options_eq new
set_bounds_accepted = refl
