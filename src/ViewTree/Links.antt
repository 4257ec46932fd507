-- ===== src/ViewTree/Links.antt =====
-- The pointers of the tree agree: a view stands among the children of its parent, once, and among
-- the children of no other view.
use golectron.Prelude.{
  ℕ, ◌≡◌, refl, ℤ, Option, none, some, List, [], ◌∷◌, ◌++◌, ◌&&◌, is_negative, ◌==◌, arith, if-elim,
  check-elim,
}
use golectron.Callbacks.{run_waiters_inv}
use golectron.ViewTree.Refs.{
  remove_child_ref, insert_at, one_if, count, found-count, count-remove_child_ref, count-insert_at,
}
use golectron.ViewTree.{
  rect_eq, options_eq, View, Heap, Event, update, ViewError, Rect, SetBoundsOptions,
  event_bounds_changed, set_children, Call, on_call, set_bounds_call, set_background_blur_call,
  set_background_color_call, set_border_radius_call, set_visible_call, add_child_call,
  remove_child_call, new, on, set_background_blur, set_background_color, set_border_radius,
  set_visible, perform, run, set_parent, remove_child, detach, attach, add_child, emit, set_bounds,
  validate_bounds,
}

-- 1 where `p` is that parent.
abbrev pub owns : Option ℕ → ℕ → ℕ
owns none p = 0
owns (some q) p = one_if (q == p)

pub record IsLinked {H : Type 0} (heap : Heap H) : Type 0 where
  pub linked : (p c : ℕ) → count c (heap p).children ≡ owns (heap c).parent p

module _ {H : Type 0} where
  remove_child-count :
      (v child : ℕ) (heap : Heap H) (p c : ℕ)
      → IsLinked heap
      → count c (remove_child v (some child) heap p).children
        ≡ owns (remove_child v (some child) heap c).parent p
  unfolding remove_child set_children set_parent
  remove_child-count v child heap p c l = ground (
    arith,
    found-count (heap v).children child,
    count-remove_child_ref (heap v).children child c,
    l.linked v c,
    l.linked p c,
    l.linked v child,
    l.linked p child,
  )

  -- Where parents and children agree, they agree after `RemoveChild`.
  pub remove_child-IsLinked :
      (v : ℕ) (child : Option ℕ) (heap : Heap H)
      → IsLinked heap
      → IsLinked (remove_child v child heap)
  unfolding remove_child
  remove_child-IsLinked v none heap l = l
  remove_child-IsLinked v (some child) heap l = record {
    linked = λ p c. remove_child-count v child heap p c l;
  }

  parent-remove_child :
      (v child : ℕ) (heap : Heap H)
      → IsLinked heap
      → (heap child).parent ≡ some v
      → (remove_child v (some child) heap child).parent ≡ none
  unfolding remove_child set_children set_parent
  parent-remove_child v child heap l e =
      ground (arith, found-count (heap v).children child, l.linked v child)

  detach-IsLinked :
      (o : Option ℕ) (child : ℕ) (heap : Heap H) → IsLinked heap → IsLinked (detach o child heap)
  unfolding detach
  detach-IsLinked none child heap l = l
  detach-IsLinked (some p) child heap l = remove_child-IsLinked p (some child) heap l

  parent-detach :
      (o : Option ℕ) (child : ℕ) (heap : Heap H)
      → IsLinked heap
      → (heap child).parent ≡ o
      → (detach o child heap child).parent ≡ none
  unfolding detach
  parent-detach none child heap l e = e
  parent-detach (some p) child heap l e = parent-remove_child p child heap l e

  -- Putting a view without a parent among the children of `v`.
  link_child : ℕ → ℕ → ℕ → Heap H → Heap H
  link_child v child i heap =
      set_parent child (some v)
        (set_children v (insert_at i child (remove_child_ref (heap v).children child).1) heap)

  link_child-IsLinked :
      (v child i : ℕ) (heap : Heap H)
      → IsLinked heap
      → (heap child).parent ≡ none
      → IsLinked (link_child v child i heap)
  unfolding link_child set_children set_parent
  link_child-IsLinked v child i heap l free = record {
    linked = λ p c. ground (
      arith,
      count-insert_at i child c (remove_child_ref (heap v).children child).1,
      count-remove_child_ref (heap v).children child c,
      l.linked v c,
      l.linked p c,
      l.linked v child,
      l.linked p child,
    );
  }

  attach-IsLinked :
      (v child : ℕ) (index : Option ℤ) (heap : Heap H)
      → IsLinked heap
      → IsLinked (attach v child index heap)
  unfolding attach link_child
  attach-IsLinked v child index heap l =
      link_child-IsLinked v child _ (detach (heap child).parent child heap)
        (detach-IsLinked (heap child).parent child heap l)
        (parent-detach (heap child).parent child heap l refl)

  -- Where parents and children agree, they agree after `AddChild`, accepted or not.
  pub add_child-IsLinked :
      (v : ℕ) (child : Option ℕ) (index : Option ℤ) (heap : Heap H)
      → IsLinked heap
      → IsLinked (add_child v child index heap).1
  unfolding add_child
  add_child-IsLinked v none index heap l = l
  add_child-IsLinked v (some child) index heap l =
      if-elim (λ (r : Option ViewError × Heap H). IsLinked r.1) (child == v) (λ _. l)
        (λ _. attach-IsLinked v child index heap l)

  -- A write that leaves the pointers of a view alone leaves the tree alone.
  update-IsLinked :
      (heap : Heap H) (v : ℕ) (view : View H)
      → view.parent ≡ (heap v).parent
      → view.children ≡ (heap v).children
      → IsLinked heap
      → IsLinked (update heap v view)
  update-IsLinked heap v view same_parent same_children l = record {
    linked = λ p c. ground (arith, l.linked p c, l.linked v c, l.linked p v, l.linked v v);
  }

module _ {H : Type 0} (call : H → Event → Heap H → Heap H)
    (keeps : (h : H) (e : Event) (heap : Heap H) → IsLinked heap → IsLinked (call h e heap)) where
  emit-IsLinked :
      (e : Event) (v : ℕ) (heap : Heap H) → IsLinked heap → IsLinked (emit call e v heap)
  unfolding emit
  emit-IsLinked e v heap l =
      run_waiters_inv (λ h. call h e) IsLinked (λ h. keeps h e) (heap v).handlers _
        (update-IsLinked heap v (record (heap v) { events = (heap v).events ++ e ∷ [] }) refl refl
          l)

  abbrev Kept : Option ViewError × Heap H → Type 0
  Kept r = IsLinked r.1

  set_bounds-IsLinked :
      (bounds : Rect) (opts : SetBoundsOptions) (v : ℕ) (heap : Heap H)
      → IsLinked heap
      → IsLinked (set_bounds call bounds opts v heap).1
  unfolding set_bounds
  set_bounds-IsLinked bounds opts v heap l =
      let moved =
        update-IsLinked heap v (record (heap v) { bounds = bounds; last_animation = opts }) refl
          refl l in
      check-elim Kept (validate_bounds bounds) (λ _ _. l)
        λ _.
          if-elim Kept (is_negative opts.duration) (λ _. l)
            λ _.
              if-elim Kept
                (rect_eq (heap v).bounds bounds && options_eq (heap v).last_animation opts) (λ _. l)
                (λ _. emit-IsLinked event_bounds_changed v _ moved)

  perform-IsLinked : (c : Call H) (heap : Heap H) → IsLinked heap → IsLinked (perform call c heap)
  unfolding perform on set_background_blur set_background_color set_border_radius set_visible
  perform-IsLinked (on_call v none) heap l = l
  perform-IsLinked (on_call v (some h)) heap l = update-IsLinked heap v _ refl refl l
  perform-IsLinked (set_bounds_call v b o) heap l = set_bounds-IsLinked b o v heap l
  perform-IsLinked (set_background_blur_call v b) heap l = update-IsLinked heap v _ refl refl l
  perform-IsLinked (set_background_color_call v c) heap l = update-IsLinked heap v _ refl refl l
  perform-IsLinked (set_border_radius_call v r) heap l =
      if-elim Kept (is_negative r) (λ _. l) (λ _. update-IsLinked heap v _ refl refl l)
  perform-IsLinked (set_visible_call v b) heap l = update-IsLinked heap v _ refl refl l
  perform-IsLinked (add_child_call v c i) heap l = add_child-IsLinked v c i heap l
  perform-IsLinked (remove_child_call v c) heap l = remove_child-IsLinked v c heap l

  run-IsLinked : (cs : List (Call H)) (heap : Heap H) → IsLinked heap → IsLinked (run call cs heap)
  unfolding run
  run-IsLinked [] heap l = l
  run-IsLinked (c ∷ cs) heap l = run-IsLinked cs (perform call c heap) (perform-IsLinked c heap l)

  -- Whatever calls new views have had, parents and children agree: a view stands once among the
  -- children of its parent and among no other view's, where event handlers keep it so.
  pub run-new-IsLinked :
      (ids : ℕ → ℤ) (cs : List (Call H)) → IsLinked (run call cs (λ v. new (ids v)))
  unfolding new count
  run-new-IsLinked ids cs = run-IsLinked cs _ (record { linked = λ p c. refl })
