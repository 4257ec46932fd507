-- ===== src/ViewTree.antt =====
-- internal/view/view.go: the views of a window and the tree that their pointers form.
-- A `*View` is a number, the heap gives the view at each one, and `nil` is `none`. Handlers are
-- application code; `call` is what they do to the heap.
mod Refs
pub mod Links
pub mod Places
pub mod Adding
mod Tests
use golectron.Prelude.{
  ℕ, ◌-◌, Bool, true, false, ◌&&◌, ◌||◌, not, ℤ, pos, negsuc, is_negative, int_eq, Option, none,
  some, List, [], ◌∷◌, ◌++◌, length, take, drop, ltb, ◌==◌, if◌then◌else◌, check,
}
use golectron.Callbacks.{run_waiters}
use golectron.Text.{Text, text_eq, trim_space}
use Refs.{remove_child_ref, insert_at}

-- The one event is `bounds-changed`.
pub data Event : Type 0 where
  event_bounds_changed : Event

pub data ViewError : Type 0 where
  invalid_bounds invalid_border_radius invalid_child : ViewError

pub record Rect : Type 0 where
  pub x : ℤ
  pub y : ℤ
  pub width : ℤ
  pub height : ℤ

pub record SetBoundsOptions : Type 0 where
  pub animate : Bool
  pub duration : ℤ

pub record BackgroundBlur : Type 0 where
  pub enabled : Bool
  pub type : Text
  pub radius : ℤ

pub record View (H : Type 0) : Type 0 where
  pub id : ℤ
  pub bounds : Rect
  pub last_animation : SetBoundsOptions
  pub visible : Bool
  pub background_color : Text
  pub background_blur : BackgroundBlur
  pub border_radius : ℤ
  pub parent : Option ℕ
  pub children : List ℕ
  pub handlers : List H
  pub events : List Event

abbrev pub Heap : Type 0 → Type 0
Heap H = ℕ → View H

abbrev pub update : {H : Type 0} → Heap H → ℕ → View H → Heap H
update heap v view = λ j. if j == v then view else heap j

-- The zero value of a Go struct.
abbrev no_rect : Rect
no_rect = record { x = pos 0; y = pos 0; width = pos 0; height = pos 0 }

pub validate_bounds : Rect → Option ViewError
validate_bounds bounds =
    if is_negative bounds.width
    then some invalid_bounds
    else if is_negative bounds.height
    then some invalid_bounds
    else none

pub rect_eq : Rect → Rect → Bool
rect_eq a b = int_eq a.x b.x && int_eq a.y b.y && int_eq a.width b.width && int_eq a.height b.height

abbrev bool_eq : Bool → Bool → Bool
bool_eq true b = b
bool_eq false b = not b

pub options_eq : SetBoundsOptions → SetBoundsOptions → Bool
options_eq a b = bool_eq a.animate b.animate && int_eq a.duration b.duration

-- The index of `AddChild`, kept within the children.
pub clamp : Option ℤ → ℕ → ℕ
clamp none len = len
clamp (some (pos i)) len = if ltb len i then len else i
clamp (some (negsuc i)) len = 0

module _ {H : Type 0} where
  pub new : ℤ → View H
  new id = record {
    id = id;
    bounds = no_rect;
    last_animation = record { animate = false; duration = pos 0 };
    visible = true;
    background_color = [];
    background_blur = record { enabled = false; type = []; radius = pos 0 };
    border_radius = pos 0;
    parent = none;
    children = [];
    handlers = [];
    events = [];
  }

  pub on : Option H → ℕ → Heap H → Heap H
  on none v heap = heap
  on (some h) v heap = update heap v (record (heap v) { handlers = (heap v).handlers ++ h ∷ [] })

  pub set_background_blur : BackgroundBlur → ℕ → Heap H → Heap H
  set_background_blur blur v heap = update heap v (record (heap v) {
    background_blur = record blur {
      type = trim_space blur.type;
      radius = if is_negative blur.radius then pos 0 else blur.radius;
    };
  })

  pub set_background_color : Text → ℕ → Heap H → Heap H
  set_background_color color v heap =
      update heap v (record (heap v) { background_color = trim_space color })

  pub set_border_radius : ℤ → ℕ → Heap H → Option ViewError × Heap H
  set_border_radius radius v heap =
      if is_negative radius
      then (some invalid_border_radius, heap)
      else (none, update heap v (record (heap v) { border_radius = radius }))

  pub set_visible : Bool → ℕ → Heap H → Heap H
  set_visible visible v heap = update heap v (record (heap v) { visible = visible })

  pub set_children : ℕ → List ℕ → Heap H → Heap H
  set_children v refs heap = update heap v (record (heap v) { children = refs })

  pub set_parent : ℕ → Option ℕ → Heap H → Heap H
  set_parent v p heap = update heap v (record (heap v) { parent = p })

  -- `v.RemoveChild(child)`
  pub remove_child : ℕ → Option ℕ → Heap H → Heap H
  remove_child v none heap = heap
  remove_child v (some child) heap =
      let (found, rest) = remove_child_ref (heap v).children child in
      let heap' = set_children v rest heap in if found then set_parent child none heap' else heap'

  -- `if child.parent != nil { child.parent.RemoveChild(child) }`
  pub detach : Option ℕ → ℕ → Heap H → Heap H
  detach none child heap = heap
  detach (some p) child heap = remove_child p (some child) heap

  -- `AddChild` of a child that is neither `nil` nor the view itself.
  pub attach : ℕ → ℕ → Option ℤ → Heap H → Heap H
  attach v child index heap =
      let detached = detach (heap child).parent child heap in
      let refs = (remove_child_ref (detached v).children child).1 in
      set_parent child (some v)
        (set_children v (insert_at (clamp index (length refs)) child refs) detached)

  -- `v.AddChild(child, index)`
  pub add_child : ℕ → Option ℕ → Option ℤ → Heap H → Option ViewError × Heap H
  add_child v none index heap = (some invalid_child, heap)
  add_child v (some child) index heap =
      if child == v then (some invalid_child, heap) else (none, attach v child index heap)

-- The calls that change views: on the view first, the arguments after.
pub data Call (H : Type 0) : Type 0 where
  on_call : ℕ → Option H → Call H
  set_bounds_call : ℕ → Rect → SetBoundsOptions → Call H
  set_background_blur_call : ℕ → BackgroundBlur → Call H
  set_background_color_call : ℕ → Text → Call H
  set_border_radius_call : ℕ → ℤ → Call H
  set_visible_call : ℕ → Bool → Call H
  add_child_call : ℕ → Option ℕ → Option ℤ → Call H
  remove_child_call : ℕ → Option ℕ → Call H

module _ {H : Type 0} (call : H → Event → Heap H → Heap H) where
  pub emit : Event → ℕ → Heap H → Heap H
  emit event v heap =
      run_waiters (λ h. call h event) (heap v).handlers
        (update heap v (record (heap v) { events = (heap v).events ++ event ∷ [] }))

  pub set_bounds : Rect → SetBoundsOptions → ℕ → Heap H → Option ViewError × Heap H
  set_bounds bounds opts v heap =
      let unchanged = rect_eq (heap v).bounds bounds && options_eq (heap v).last_animation opts in
      let moved = update heap v (record (heap v) { bounds = bounds; last_animation = opts }) in
      check (validate_bounds bounds) heap (
        if is_negative opts.duration
        then (some invalid_bounds, heap)
        else if unchanged
        then (none, heap)
        else (none, emit event_bounds_changed v moved))

  pub perform : Call H → Heap H → Heap H
  perform (on_call v h) heap = on h v heap
  perform (set_bounds_call v bounds opts) heap = (set_bounds bounds opts v heap).1
  perform (set_background_blur_call v blur) heap = set_background_blur blur v heap
  perform (set_background_color_call v color) heap = set_background_color color v heap
  perform (set_border_radius_call v radius) heap = (set_border_radius radius v heap).1
  perform (set_visible_call v visible) heap = set_visible visible v heap
  perform (add_child_call v child index) heap = (add_child v child index heap).1
  perform (remove_child_call v child) heap = remove_child v child heap

  pub run : List (Call H) → Heap H → Heap H
  run [] heap = heap
  run (c ∷ cs) heap = run cs (perform c heap)
