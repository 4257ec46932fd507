-- ===== src/Menu/Update.antt =====
-- What `UpdateItem` of internal/menu/menu.go does to the items of a menu.
use golectron.Prelude.{
  ℕ, suc, Bool, arith, ◌≡◌, ◌≢◌, ◌⊎◌, refl, sym, ap, ◌∙◌, subst, true, false, Bool-cases, Option,
  none, some, Option-cases, List, [], ◌∷◌, ◌++◌, All, All-append, append_assoc, if◌then◌else◌, inl,
  inr,
}
use golectron.Text.{Text, is_empty, text_eq, text_eq_iff, trim_space}
use golectron.Text.Trim.{trim_space_idem}
use golectron.Menu.{
  item_checkbox, item_radio, TemplateFields, ItemFields, Items, no_items, item, Submenu, no_submenu,
  submenu, update_event, Menu, or_later, item_by_id, in_submenu, update_fields, write_item,
  write_submenu, update_item,
}

-- An item in the outline of a menu: how deep it stands, whether it has a submenu, and its fields.
abbrev pub Entry : Type 0
Entry = ℕ × Bool × ItemFields

abbrev pub fields : Entry → ItemFields
fields (depth, has_submenu, f) = f

abbrev pub is_submenu : Submenu → Bool
is_submenu no_submenu = false
is_submenu (submenu items) = true

-- The items from the top down, each with its submenu's behind it: the outline gives the menu back.
mutual
  pub outline : ℕ → Items → List Entry
  outline d no_items = []
  outline d (item f s rest) = (d, is_submenu s, f) ∷ (inside d s ++ outline d rest)

  pub inside : ℕ → Submenu → List Entry
  inside d no_submenu = []
  inside d (submenu items) = outline (suc d) items

-- A text that is written unless the update leaves it empty.
pub WrittenText : Text → Text → Text → Text → Type 0
WrittenText [] value old new = new ≡ old
WrittenText (c ∷ cs) value old new = new ≡ value

-- A flag that is written where the update has one.
pub WrittenFlag : Option Bool → Bool → Bool → Type 0
WrittenFlag none old new = new ≡ old
WrittenFlag (some b) old new = new ≡ b

-- Only a checkbox and a radio item take the update's mark.
pub WrittenMark : TemplateFields → ItemFields → ItemFields → Type 0
WrittenMark u f g =
    (((f.type_name ≡ item_checkbox) ⊎ (f.type_name ≡ item_radio)) × (g.checked ≡ u.checked))
    ⊎ ((f.type_name ≢ item_checkbox) × (f.type_name ≢ item_radio) × (g.checked ≡ f.checked))

-- `g` is the item `f` after the update `u`.
pub record Written (u : TemplateFields) (f g : ItemFields) : Type 0 where
  id_kept : g.id ≡ f.id
  type_kept : g.type_name ≡ f.type_name
  role_kept : g.role ≡ f.role
  label_written : WrittenText u.label u.label f.label g.label
  accelerator_written :
      WrittenText u.accelerator (trim_space u.accelerator) f.accelerator g.accelerator
  enabled_written : WrittenFlag u.enabled f.enabled g.enabled
  visible_written : WrittenFlag u.visible f.visible g.visible
  mark_written : WrittenMark u f g

-- The second outline is the first, with the update written into the first item of the identifier.
pub record Rewritten (key : Text) (u : TemplateFields) (f : ItemFields) (xs ys : List Entry)
    : Type 0 where
  before : List Entry
  behind : List Entry
  depth : ℕ
  has_submenu : Bool
  written : ItemFields
  found : xs ≡ before ++ (depth, has_submenu, f) ∷ behind
  replaced : ys ≡ before ++ (depth, has_submenu, written) ∷ behind
  first : All (λ x. text_eq (fields x).id key ≡ false) before
  named : text_eq f.id key ≡ true
  as_written : Written u f written

text-WrittenText :
    (t value old : Text) → WrittenText t value old (if is_empty t then old else value)
unfolding WrittenText
text-WrittenText [] value old = refl
text-WrittenText (c ∷ cs) value old = refl

flag-WrittenFlag :
    (o : Option Bool) (old : Bool) → WrittenFlag o old (elim o [ none ↦ old | some b ↦ b ])
unfolding WrittenFlag
flag-WrittenFlag none old = refl
flag-WrittenFlag (some b) old = refl

text_differs : (a b : Text) → text_eq a b ≡ false → a ≢ b
text_differs a b h e = ground (arith, (text_eq_iff a b).1 e)

update_fields-mark : (u : TemplateFields) (f : ItemFields) → WrittenMark u f (update_fields u f)
unfolding update_fields WrittenMark
update_fields-mark u f = elim (Bool-cases (text_eq f.type_name item_checkbox)) [
  | inl e ↦ rw e (inl (inl ((text_eq_iff f.type_name item_checkbox).0 e), refl))
  | inr e ↦ elim (Bool-cases (text_eq f.type_name item_radio)) [
    | inl r ↦ rw (e, r) (inl (inr ((text_eq_iff f.type_name item_radio).0 r), refl))
    | inr r ↦
        rw (e, r)
          (inr
            (text_differs f.type_name item_checkbox e, text_differs f.type_name item_radio r, refl))
  ]
]

update_fields-Written : (u : TemplateFields) (f : ItemFields) → Written u f (update_fields u f)
unfolding update_fields
update_fields-Written u f = record {
  id_kept = refl;
  type_kept = refl;
  role_kept = refl;
  label_written = text-WrittenText u.label u.label f.label;
  accelerator_written = text-WrittenText u.accelerator (trim_space u.accelerator) f.accelerator;
  enabled_written = flag-WrittenFlag u.enabled f.enabled;
  visible_written = flag-WrittenFlag u.visible f.visible;
  mark_written = update_fields-mark u f;
}

at_head :
    (id : Text) (f : ItemFields) (s : Submenu) (rest : Items)
    → text_eq f.id (trim_space id) ≡ true
    → item_by_id id (item f s rest) ≡ some f
unfolding item_by_id
at_head id f s rest e = rw (e, item_by_id) refl

past_head :
    (id : Text) (f : ItemFields) (s : Submenu) (rest : Items)
    → text_eq f.id (trim_space id) ≡ false
    → item_by_id id (item f s rest) ≡ or_later (in_submenu (trim_space id) s) (item_by_id id rest)
unfolding item_by_id
past_head id f s rest e = rw (e, item_by_id) refl

write_head :
    (id : Text) (u : TemplateFields) (f : ItemFields) (s : Submenu) (rest : Items)
    → text_eq f.id (trim_space id) ≡ true
    → write_item id u (item f s rest) ≡ item (update_fields u f) s rest
unfolding write_item
write_head id u f s rest e = rw (e, write_item) refl

write_below :
    (id : Text) (u : TemplateFields) (f g : ItemFields) (s : Submenu) (rest : Items)
    → text_eq f.id (trim_space id) ≡ false
    → in_submenu (trim_space id) s ≡ some g
    → write_item id u (item f s rest) ≡ item f (write_submenu (trim_space id) u s) rest
unfolding write_item
write_below id u f g s rest e b = rw (e, b, write_item) refl

write_later :
    (id : Text) (u : TemplateFields) (f : ItemFields) (s : Submenu) (rest : Items)
    → text_eq f.id (trim_space id) ≡ false
    → in_submenu (trim_space id) s ≡ none
    → write_item id u (item f s rest) ≡ item f s (write_item id u rest)
unfolding write_item
write_later id u f s rest e b = rw (e, b, write_item) refl

abbrev Absent : Text → List Entry → Type 0
Absent key = All (λ x. text_eq (fields x).id key ≡ false)

prepend-Rewritten :
    (key : Text) (u : TemplateFields) (f : ItemFields) (zs xs ys : List Entry)
    → Absent key zs
    → Rewritten key u f xs ys
    → Rewritten key u f (zs ++ xs) (zs ++ ys)
prepend-Rewritten key u f zs xs ys h r = record {
  before = zs ++ r.before;
  behind = r.behind;
  depth = r.depth;
  has_submenu = r.has_submenu;
  written = r.written;
  found = ap (λ l. zs ++ l) r.found ∙ sym (append_assoc zs r.before _);
  replaced = ap (λ l. zs ++ l) r.replaced ∙ sym (append_assoc zs r.before _);
  first = All-append (λ x. text_eq (fields x).id key ≡ false) zs r.before h r.first;
  named = r.named;
  as_written = r.as_written;
}

append-Rewritten :
    (key : Text) (u : TemplateFields) (f : ItemFields) (xs ys zs : List Entry)
    → Rewritten key u f xs ys
    → Rewritten key u f (xs ++ zs) (ys ++ zs)
append-Rewritten key u f xs ys zs r = record {
  before = r.before;
  behind = r.behind ++ zs;
  depth = r.depth;
  has_submenu = r.has_submenu;
  written = r.written;
  found = ap (λ l. l ++ zs) r.found ∙ append_assoc r.before _ zs;
  replaced = ap (λ l. l ++ zs) r.replaced ∙ append_assoc r.before _ zs;
  first = r.first;
  named = r.named;
  as_written = r.as_written;
}

is_submenu-write_submenu :
    (id : Text) (u : TemplateFields) (s : Submenu)
    → is_submenu (write_submenu id u s) ≡ is_submenu s
unfolding write_submenu
is_submenu-write_submenu id u no_submenu = refl
is_submenu-write_submenu id u (submenu items) = refl

head_written :
    (key : Text) (u : TemplateFields) (f g : ItemFields) (d : ℕ) (b : Bool) (behind : List Entry)
    → text_eq g.id key ≡ true
    → g ≡ f
    → Rewritten key u f ((d, b, g) ∷ behind) ((d, b, update_fields u g) ∷ behind)
head_written key u f g d b behind h e = record {
  before = [];
  behind = behind;
  depth = d;
  has_submenu = b;
  written = update_fields u g;
  found = ap (λ x. (d, b, x) ∷ behind) e;
  replaced = refl;
  first = tt;
  named = ap (λ (x : ItemFields). text_eq x.id key) (sym e) ∙ h;
  as_written = subst (λ x. Written u x (update_fields u g)) e (update_fields-Written u g);
}

below_written :
    (key : Text) (u : TemplateFields) (f g : ItemFields) (d : ℕ) (b b' : Bool)
    (xs ys behind : List Entry)
    → text_eq g.id key ≡ false
    → b' ≡ b
    → Rewritten key u f xs ys
    → Rewritten key u f ((d, b, g) ∷ (xs ++ behind)) ((d, b', g) ∷ (ys ++ behind))
below_written key u f g d b b' xs ys behind h same r =
    subst (λ c. Rewritten key u f ((d, b, g) ∷ (xs ++ behind)) ((d, c, g) ∷ (ys ++ behind)))
      (sym same)
      (prepend-Rewritten key u f ((d, b, g) ∷ []) (xs ++ behind) (ys ++ behind) (h, tt)
        (append-Rewritten key u f xs ys behind r))

some-none : {A : Type 0} {a : A} → some a ≢ none
some-none e = cc e

neither : {A : Type 0} {a b : Option A} → or_later a b ≡ none → (a ≡ none) × (b ≡ none)
neither {a = none} e = (refl, e)
neither {a = some x} e = absurd (some-none e)

same_item : {f g : ItemFields} → Path (Option ItemFields) (some f) (some g) → f ≡ g
same_item e = cc e

mutual
  unfolding outline inside item_by_id in_submenu

  -- An identifier that finds nothing stands nowhere in the outline.
  Absent-outline :
      (id : Text) (d : ℕ) (is : Items)
      → item_by_id id is ≡ none
      → Absent (trim_space id) (outline d is)
  Absent-outline id d no_items e = tt
  Absent-outline id d (item f s rest) e = elim (Bool-cases (text_eq f.id (trim_space id))) [
    | inl h ↦ absurd (some-none (sym (at_head id f s rest h) ∙ e))
    | inr h ↦
        let (no_below, no_later) = neither (sym (past_head id f s rest h) ∙ e) in
        (
          h,
          All-append (λ x. text_eq (fields x).id (trim_space id) ≡ false) (inside d s)
              (outline d rest) (Absent-inside id d s no_below) (Absent-outline id d rest no_later),
        )
  ]

  Absent-inside :
      (id : Text) (d : ℕ) (s : Submenu)
      → in_submenu (trim_space id) s ≡ none
      → Absent (trim_space id) (inside d s)
  Absent-inside id d no_submenu e = tt
  Absent-inside id d (submenu items) e =
      subst (λ k. Absent k (outline (suc d) items)) (trim_space_idem id)
        (Absent-outline (trim_space id) (suc d) items e)

mutual
  unfolding outline inside item_by_id in_submenu write_item write_submenu

  write_item-Rewritten :
      (id : Text) (u : TemplateFields) (f : ItemFields) (d : ℕ) (is : Items)
      → item_by_id id is ≡ some f
      → Rewritten (trim_space id) u f (outline d is) (outline d (write_item id u is))
  write_item-Rewritten id u f d no_items e = absurd (some-none (sym e))
  write_item-Rewritten id u f d (item g s rest) e =
      elim (Bool-cases (text_eq g.id (trim_space id))) [
        | inl h ↦
            subst (λ is. Rewritten (trim_space id) u f (outline d (item g s rest)) (outline d is))
              (sym (write_head id u g s rest h))
              (head_written (trim_space id) u f g d (is_submenu s) (inside d s ++ outline d rest) h
                (same_item (sym (at_head id g s rest h) ∙ e)))
        | inr h ↦ elim (Option-cases (in_submenu (trim_space id) s)) [
          | inr (below, b) ↦
              subst (λ is. Rewritten (trim_space id) u f (outline d (item g s rest)) (outline d is))
                (sym (write_below id u g below s rest h b))
                (below_written (trim_space id) u f g d (is_submenu s) _ _ _ (outline d rest) h
                  (is_submenu-write_submenu (trim_space id) u s)
                  (write_submenu-Rewritten id u f d s (
                    b
                    ∙ sym (ap (λ o. or_later o (item_by_id id rest)) b)
                    ∙ sym (past_head id g s rest h)
                    ∙ e)))
          | inl b ↦
              subst (λ is. Rewritten (trim_space id) u f (outline d (item g s rest)) (outline d is))
                (sym (write_later id u g s rest h b))
                (prepend-Rewritten (trim_space id) u f ((d, is_submenu s, g) ∷ inside d s) _ _
                  (h, Absent-inside id d s b)
                  (write_item-Rewritten id u f d rest (
                    sym (ap (λ o. or_later o (item_by_id id rest)) b)
                    ∙ sym (past_head id g s rest h)
                    ∙ e)))
        ]
      ]

  write_submenu-Rewritten :
      (id : Text) (u : TemplateFields) (f : ItemFields) (d : ℕ) (s : Submenu)
      → in_submenu (trim_space id) s ≡ some f
      → Rewritten (trim_space id) u f (inside d s) (inside d (write_submenu (trim_space id) u s))
  write_submenu-Rewritten id u f d no_submenu e = absurd (some-none (sym e))
  write_submenu-Rewritten id u f d (submenu items) e =
      subst
        (λ k.
          Rewritten k u f (outline (suc d) items)
            (outline (suc d) (write_item (trim_space id) u items)))
        (trim_space_idem id) (write_item-Rewritten (trim_space id) u f (suc d) items e)

update_item_at :
    (id : Text) (u : TemplateFields) (f : ItemFields) (m : Menu)
    → m.disposed ≡ false
    → item_by_id id m.items ≡ some f
    → update_item id u m ≡ (
      none,
      record m { items = write_item id u m.items; events = m.events ++ update_event id ∷ [] },
    )
unfolding update_item
update_item_at id u f m d e = simp (d, e)

-- An update of an item that a menu in use has, in the menu or below it, succeeds and is logged, and
-- the items are the ones that were there, in the same places and submenus, but for the first one with
-- the trimmed identifier, which is written: a label and an accelerator unless they are empty, the
-- flags that the update has, and the mark of a checkbox or radio item.
pub update_item_lem :
    (id : Text) (u : TemplateFields) (f : ItemFields) (m : Menu)
    → m.disposed ≡ false
    → item_by_id id m.items ≡ some f
    → let after = update_item id u m in
      (after.0 ≡ none)
      × Rewritten (trim_space id) u f (outline 0 m.items) (outline 0 after.1.items)
      × (after.1.events ≡ m.events ++ update_event id ∷ [])
update_item_lem id u f m d e =
    rw (update_item_at id u f m d e) (refl, write_item-Rewritten id u f 0 m.items e, refl)
