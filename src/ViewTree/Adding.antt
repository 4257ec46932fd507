-- ===== src/ViewTree/Adding.antt =====
-- What `AddChild` does to the two views, what it does not check, and bounds that are set twice.
use golectron.Prelude.{
  ℕ, ◌≤◌, inl, inr, Bool-cases, if◌then◌else◌, sym, ap, ◌∙◌, subst, ◌≡◌, ◌≢◌, refl, true, false, ℤ,
  Option, none, some, [], ◌∷◌, ◌++◌, length, ◌==◌, arith, int_eq_iff,
}
use golectron.Callbacks.{run_waiters_pure}
use golectron.ViewTree.Refs.{remove_child_ref, insert_at, count}
use golectron.ViewTree.Links.{IsLinked, owns}
use golectron.ViewTree.{
  Heap, Event, update, Rect, SetBoundsOptions, set_children, set_parent, remove_child, detach,
  attach, add_child, clamp, rect_eq, options_eq, emit, set_bounds, event_bounds_changed,
}
use golectron.ViewTree.Places.{
  without, without_absent, without_twice, remove_child_ref_once, count-without, Placed,
  insert_at-Placed,
}

parent-detach_ne :
    {H : Type 0} (o : Option ℕ) (child v : ℕ) (heap : Heap H)
    → child ≢ v
    → (detach o child heap v).parent ≡ (heap v).parent
unfolding detach remove_child set_children set_parent
parent-detach_ne none child v heap ne = refl
parent-detach_ne (some p) child v heap ne = ground arith

module _ {H : Type 0} where
  remove_child-children :
      (p child q : ℕ) (heap : Heap H)
      → (remove_child p (some child) heap q).children
        ≡ (if q == p then (remove_child_ref (heap p).children child).1 else (heap q).children)
  unfolding remove_child set_children set_parent
  remove_child-children p child q heap = ground arith

  children_same :
      (p child q : ℕ) (heap : Heap H)
      → (q == p) ≡ true
      → count child (heap q).children ≤ 1
      → (remove_child p (some child) heap q).children ≡ without child (heap q).children
  children_same p child q heap e h =
      remove_child-children p child q heap
      ∙ ap (λ b. if b then (remove_child_ref (heap p).children child).1 else (heap q).children) e
      ∙ subst (λ x. (remove_child_ref (heap x).children child).1 ≡ without child (heap q).children)
          (ground (arith, e)) (remove_child_ref_once child (heap q).children h)

  children_other :
      (p child q : ℕ) (heap : Heap H)
      → (q == p) ≡ false
      → count child (heap q).children ≡ 0
      → (remove_child p (some child) heap q).children ≡ without child (heap q).children
  children_other p child q heap e h =
      remove_child-children p child q heap
      ∙ ap (λ b. if b then (remove_child_ref (heap p).children child).1 else (heap q).children) e
      ∙ sym (without_absent child (heap q).children h)

  children-detach :
      (o : Option ℕ) (child : ℕ) (heap : Heap H) (q : ℕ)
      → count child (heap q).children ≡ owns o q
      → (detach o child heap q).children ≡ without child (heap q).children
  unfolding detach
  children-detach none child heap q h = sym (without_absent child (heap q).children h)
  children-detach (some p) child heap q h = elim (Bool-cases (q == p)) [
    | inl e ↦ children_same p child q heap e (ground (arith, h))
    | inr e ↦ children_other p child q heap e (ground (arith, h, e))
  ]

  -- Taking a child from its parent leaves every view its children without that one.
  detach_children :
      (child : ℕ) (heap : Heap H) (q : ℕ)
      → IsLinked heap
      → (detach (heap child).parent child heap q).children ≡ without child (heap q).children
  detach_children child heap q l =
      children-detach (heap child).parent child heap q (l.linked q child)

  -- The references that `AddChild` puts the child among.
  attach_refs :
      (v child : ℕ) (heap : Heap H)
      → IsLinked heap
      → (remove_child_ref (detach (heap child).parent child heap v).children child).1
        ≡ without child (heap v).children
  attach_refs v child heap l =
      ap (λ xs. (remove_child_ref xs child).1) (detach_children child heap v l)
      ∙ remove_child_ref_once child (without child (heap v).children)
          (omega (arith, count-without child (heap v).children))
      ∙ without_twice child (heap v).children

  attach_own :
      (v child : ℕ) (index : Option ℤ) (heap : Heap H)
      → (attach v child index heap v).children ≡ (
          let refs =
            (remove_child_ref (detach (heap child).parent child heap v).children child).1 in
          insert_at (clamp index (length refs)) child refs)
  unfolding attach set_children set_parent
  attach_own v child index heap = ground arith

  attach_other :
      (v child q : ℕ) (index : Option ℤ) (heap : Heap H)
      → q ≢ v
      → (attach v child index heap q).children ≡ (detach (heap child).parent child heap q).children
  unfolding attach set_children set_parent
  attach_other v child q index heap ne = ground arith

  attach-Placed :
      (v child : ℕ) (index : Option ℤ) (heap : Heap H)
      → IsLinked heap
      → Placed index child (without child (heap v).children) (attach v child index heap v).children
  attach-Placed v child index heap l =
      let rest = without child (heap v).children in
      subst (Placed index child rest)
        (sym (
          attach_own v child index heap
          ∙ ap (λ refs. insert_at (clamp index (length refs)) child refs)
              (attach_refs v child heap l)))
        (insert_at-Placed index child rest)

  attach_parent :
      (v child q : ℕ) (index : Option ℤ) (heap : Heap H)
      → q ≢ child
      → (attach v child index heap q).parent ≡ (heap q).parent
  unfolding attach set_children set_parent
  attach_parent v child q index heap ne =
      ground (arith, parent-detach_ne (heap child).parent child q heap (λ e. ne (sym e)))

  attach_child :
      (v child : ℕ) (index : Option ℤ) (heap : Heap H)
      → (attach v child index heap child).parent ≡ some v
  unfolding attach set_children set_parent
  attach_child v child index heap = ground arith

  add_child-attach :
      (v child : ℕ) (index : Option ℤ) (heap : Heap H)
      → child ≢ v
      → add_child v (some child) index heap ≡ (none, attach v child index heap)
  unfolding add_child
  add_child-attach v child index heap ne = ground arith

module _ {H : Type 0} (v child : ℕ) (index : Option ℤ) (heap : Heap H) where
  -- Where parents and children agree, `AddChild` of another view succeeds: the child then has `v`
  -- for its parent, and every other view the parent it had. The child stands among the other
  -- children of `v`, which keep their order: at the end without an index, in front for a negative
  -- one, otherwise behind as many of them as the index says, and at the end if there are fewer.
  -- Every other view has the children that it had, without the child.
  pub add_child_lem :
      child ≢ v
      → IsLinked heap
      → let after = add_child v (some child) index heap in
        (after.0 ≡ none)
        × ((after.1 child).parent ≡ some v)
        × ((q : ℕ) → q ≢ child → (after.1 q).parent ≡ (heap q).parent)
        × Placed index child (without child (heap v).children) (after.1 v).children
        × ((q : ℕ) → q ≢ v → (after.1 q).children ≡ without child (heap q).children)
  add_child_lem ne l = rw (add_child-attach v child index heap ne) (
    refl,
    attach_child v child index heap,
    (λ q other. attach_parent v child q index heap other),
    attach-Placed v child index heap l,
    (λ q other. attach_other v child q index heap other ∙ detach_children child heap q l),
  )

  -- `AddChild` does not look at the ancestors of `v`: given the parent of `v`, another view, it makes a cycle of
  -- the two views, each the parent of the other.
  pub add_child_cycle :
      child ≢ v
      → (heap v).parent ≡ some child
      → ((add_child v (some child) index heap).0 ≡ none)
        × (((add_child v (some child) index heap).1 v).parent ≡ some child)
        × (((add_child v (some child) index heap).1 child).parent ≡ some v)
  unfolding add_child attach set_children set_parent
  add_child_cycle ne up = ground (arith, parent-detach_ne (heap child).parent child v heap ne)

rect_eq_refl : (r : Rect) → rect_eq r r ≡ true
unfolding rect_eq
rect_eq_refl r = ground (
  arith,
  int_eq_iff r.x r.x,
  int_eq_iff r.y r.y,
  int_eq_iff r.width r.width,
  int_eq_iff r.height r.height,
)

options_eq_refl : (o : SetBoundsOptions) → options_eq o o ≡ true
unfolding options_eq
options_eq_refl o = ground (arith, int_eq_iff o.duration o.duration)

module _ {H : Type 0} (call : H → Event → Heap H → Heap H)
    (pure : (h : H) (e : Event) (heap : Heap H) → call h e heap ≡ heap) where
  -- After an accepted `SetBounds`, a second with the same arguments is accepted and changes nothing,
  -- where event handlers leave the views alone.
  pub set_bounds_twice :
      (bounds : Rect) (opts : SetBoundsOptions) (v : ℕ) (heap : Heap H)
      → (set_bounds call bounds opts v heap).0 ≡ none
      → set_bounds call bounds opts v (set_bounds call bounds opts v heap).1
        ≡ (none, (set_bounds call bounds opts v heap).1)
  unfolding set_bounds emit
  set_bounds_twice bounds opts v heap accepted = ground (
    arith,
    rect_eq_refl bounds,
    options_eq_refl opts,
    run_waiters_pure (λ h. call h event_bounds_changed) (λ h. pure h event_bounds_changed)
        (heap v).handlers
        (update heap v (record (heap v) {
          bounds = bounds;
          last_animation = opts;
          events = (heap v).events ++ event_bounds_changed ∷ [];
        })),
  )
