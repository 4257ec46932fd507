-- ===== src/ContextBridge/Frozen.antt =====
-- The values that `cloneValue` of internal/contextbridge/bridge.go clones to themselves.
pub mod Cloned
use golectron.Prelude.{
  ℕ, ◌≡◌, refl, sym, ap, ◌∙◌, subst, Bool, true, false, ◌||◌, Bool-cases, List, [], ◌∷◌, Outcome,
  ok, err, Outcome-cases, any, if◌then◌else◌, if-elim, inl, inr, arith,
}
use golectron.Text.{Text, text_eq, text_eq_iff, is_empty, trim_space, text_eq_sym}
use golectron.Text.Trim.{trim_space_idem}
use golectron.ContextBridge.{
  BridgeError, function_name_required, object_key, Value, string, num, boolean, null, fn, object,
  array, unknown_kind, Members, empty, member, Items, nil, item, put_member, bad_key, map_ok,
  clone_value, clone_members, clone_items,
}

-- Names are trimmed, and the keys of an object are good and differ from each other; `seen` are the
-- keys in front.
mutual
  pub IsFrozen : Value → Type 0
  IsFrozen (string s) = Unit {0}
  IsFrozen (num n) = Unit {0}
  IsFrozen (boolean b) = Unit {0}
  IsFrozen null = Unit {0}
  IsFrozen (fn name) = (is_empty name ≡ false) × (trim_space name ≡ name)
  IsFrozen (object members) = AreFrozenMembers [] members
  IsFrozen (array items) = AreFrozenItems items
  IsFrozen (unknown_kind kind) = ⊥

  pub AreFrozenMembers : List Text → Members → Type 0
  AreFrozenMembers seen empty = Unit {0}
  AreFrozenMembers seen (member key value rest) =
      (trim_space key ≡ key)
      × (bad_key key ≡ false)
      × IsFrozen value
      × (any (text_eq key) seen ≡ false)
      × AreFrozenMembers (key ∷ seen) rest

  pub AreFrozenItems : Items → Type 0
  AreFrozenItems nil = Unit {0}
  AreFrozenItems (item value rest) = IsFrozen value × AreFrozenItems rest

abbrev holds : Text → Members → Bool
holds key empty = false
holds key (member k value rest) = text_eq key k || holds key rest

abbrev append : Members → Members → Members
append empty ns = ns
append (member k value ms) ns = member k value (append ms ns)

append_assoc : (ls ms ns : Members) → append (append ls ms) ns ≡ append ls (append ms ns)
append_assoc empty ms ns = refl
append_assoc (member k v ls) ms ns = ap (member k v) (append_assoc ls ms ns)

append-empty : (ms : Members) → append ms empty ≡ ms
append-empty empty = refl
append-empty (member k v ms) = ap (member k v) (append-empty ms)

or_false : (a b : Bool) → a || b ≡ false → (a ≡ false) × (b ≡ false)
or_false a b h = ground arith

or_nothing : (a : Bool) → a || false ≡ false || a
or_nothing a = ground arith

or_assoc : (a b c : Bool) → a || (b || c) ≡ (a || b) || c
or_assoc a b c = ground arith

-- A new key goes to the end.
put_member-append :
    (key : Text) (value : Value) (ms : Members)
    → holds key ms ≡ false
    → put_member key value ms ≡ append ms (member key value empty)
unfolding put_member
put_member-append key value empty h = refl
put_member-append key value (member k v ms) h =
    let (other, rest) = or_false (text_eq key k) (holds key ms) h in
    rw (text_eq_sym k key ∙ other, put_member-append key value ms rest) refl

holds-append :
    (key k : Text) (value : Value) (ms : Members)
    → holds key (append ms (member k value empty)) ≡ holds key ms || text_eq key k
holds-append key k value empty = or_nothing (text_eq key k)
holds-append key k value (member j v ms) =
    rw (holds-append key k value ms) (or_assoc (text_eq key j) (holds key ms) (text_eq key k))

-- The keys in front are seen.
record IsSeen (seen : List Text) (ms : Members) : Type 0 where
  apart : (key : Text) → any (text_eq key) seen ≡ false → holds key ms ≡ false

IsSeen-append :
    (seen : List Text) (ms : Members) (key : Text) (value : Value)
    → IsSeen seen ms
    → IsSeen (key ∷ seen) (append ms (member key value empty))
IsSeen-append seen ms key value h = record {
  apart = λ k fresh.
      let (other, old) = or_false (text_eq k key) (any (text_eq k) seen) fresh in
      holds-append k key value ms ∙ rw (h.apart k old, other) refl;
}

fn_clone :
    (name : Text)
    → is_empty name ≡ false
    → trim_space name ≡ name
    → clone_value (fn name) ≡ ok (fn name)
unfolding clone_value
fn_clone name e t = rw (t, e) refl

member_clone :
    (key : Text) (value new : Value) (rest ms : Members)
    → trim_space key ≡ key
    → bad_key key ≡ false
    → clone_value value ≡ ok new
    → clone_members (member key value rest) ms ≡ clone_members rest (put_member key new ms)
unfolding clone_value
member_clone key value new rest ms t good e = rw (t, good, e, t) refl

item_clone :
    (value new : Value) (rest others : Items)
    → clone_value value ≡ ok new
    → clone_items rest ≡ ok others
    → clone_items (item value rest) ≡ ok (item new others)
unfolding clone_value
item_clone value new rest others e f = rw (e, f) refl

object_clone :
    (ms ns : Members) → clone_members ms empty ≡ ok ns → clone_value (object ms) ≡ ok (object ns)
unfolding clone_value
object_clone ms ns e = rw e refl

array_clone : (is ns : Items) → clone_items is ≡ ok ns → clone_value (array is) ≡ ok (array ns)
unfolding clone_value
array_clone is ns e = rw e refl

members_end : (ms : Members) → clone_members empty ms ≡ ok ms
unfolding clone_value
members_end ms = refl

mutual
  unfolding clone_value IsFrozen

  pub IsFrozen-clone : (v : Value) → IsFrozen v → clone_value v ≡ ok v
  IsFrozen-clone (string s) h = refl
  IsFrozen-clone (num n) h = refl
  IsFrozen-clone (boolean b) h = refl
  IsFrozen-clone null h = refl
  IsFrozen-clone (fn name) h = fn_clone name h.0 h.1
  IsFrozen-clone (object ms) h =
      object_clone ms ms (frozen_members [] empty ms h (record { apart = λ k f. refl }))
  IsFrozen-clone (array is) h = array_clone is is (frozen_items is h)
  IsFrozen-clone (unknown_kind kind) h = absurd h

  frozen_members :
      (seen : List Text) (ms rest : Members)
      → AreFrozenMembers seen rest
      → IsSeen seen ms
      → clone_members rest ms ≡ ok (append ms rest)
  frozen_members seen ms empty h apart = ap ok (sym (append-empty ms))
  frozen_members seen ms (member key value rest) (t, good, frozen, fresh, others) s =
      member_clone key value value rest ms t good (IsFrozen-clone value frozen)
      ∙ ap (clone_members rest) (put_member-append key value ms (s.apart key fresh))
      ∙ frozen_members (key ∷ seen) (append ms (member key value empty)) rest others
          (IsSeen-append seen ms key value s)
      ∙ ap ok (append_assoc ms (member key value empty) rest)

  frozen_items : (is : Items) → AreFrozenItems is → clone_items is ≡ ok is
  frozen_items nil h = refl
  frozen_items (item value rest) (frozen, others) =
      item_clone value value rest rest (IsFrozen-clone value frozen) (frozen_items rest others)
