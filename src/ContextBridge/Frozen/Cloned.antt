-- ===== src/ContextBridge/Frozen/Cloned.antt =====
-- What `cloneValue` of internal/contextbridge/bridge.go answers is cloned to itself.
use golectron.Prelude.{
  ◌≡◌, refl, ◌∙◌, subst, true, false, Bool-cases, List, [], ◌∷◌, Outcome, ok, err, Outcome-cases,
  any, if-elim, inl, inr,
}
use golectron.Text.{Text, text_eq, text_eq_sym, is_empty, trim_space}
use golectron.Text.Trim.{trim_space_idem}
use golectron.ContextBridge.{
  BridgeError, function_name_required, object_key, Value, string, num, boolean, null, fn, object,
  array, unknown_kind, Members, empty, member, Items, nil, item, put_member, bad_key, map_ok,
  clone_value, clone_members, clone_items,
}
use golectron.ContextBridge.Frozen.{IsFrozen, AreFrozenMembers, AreFrozenItems, IsFrozen-clone}

put_member-AreFrozen :
    (seen : List Text) (key : Text) (value : Value) (ms : Members)
    → trim_space key ≡ key
    → bad_key key ≡ false
    → IsFrozen value
    → any (text_eq key) seen ≡ false
    → AreFrozenMembers seen ms
    → AreFrozenMembers seen (put_member key value ms)
unfolding put_member IsFrozen
put_member-AreFrozen seen key value empty t good v fresh h = (t, good, v, fresh, tt)
put_member-AreFrozen seen key value (member k old rest) t good v fresh (t', good', v', fresh', h) =
    if-elim (AreFrozenMembers seen) (text_eq k key) (λ _. (t', good', v, fresh', h))
      (λ other. (
        t',
        good',
        v',
        fresh',
        put_member-AreFrozen (k ∷ seen) key value rest t good v
            (rw (text_eq_sym key k ∙ other, fresh) refl) h,
      ))

-- What a clone came to, with a frozen value if it succeeded.
record Freezes (o : Outcome BridgeError Value) : Type 0 where
  frozen : (w : Value) → o ≡ ok w → IsFrozen w

record FreezesMembers (o : Outcome BridgeError Members) : Type 0 where
  frozen : (ms : Members) → o ≡ ok ms → AreFrozenMembers [] ms

record FreezesItems (o : Outcome BridgeError Items) : Type 0 where
  frozen : (is : Items) → o ≡ ok is → AreFrozenItems is

same_value : {v w : Value} → Path (Outcome BridgeError Value) (ok v) (ok w) → v ≡ w
same_value e = cc e

same_members : {v w : Members} → Path (Outcome BridgeError Members) (ok v) (ok w) → v ≡ w
same_members e = cc e

same_items : {v w : Items} → Path (Outcome BridgeError Items) (ok v) (ok w) → v ≡ w
same_items e = cc e

freezes : (v : Value) → IsFrozen v → Freezes (ok v)
freezes v h = record { frozen = λ w e. subst IsFrozen (same_value e) h }

fails : (e : BridgeError) → Freezes (err e)
fails e = record { frozen = λ w f. cc f }

fails_members : (e : BridgeError) → FreezesMembers (err e)
fails_members e = record { frozen = λ w f. cc f }

object-Freezes : (o : Outcome BridgeError Members) → FreezesMembers o → Freezes (map_ok object o)
unfolding IsFrozen
object-Freezes (ok ms) h = freezes (object ms) (h.frozen ms refl)
object-Freezes (err e) h = fails e

array-Freezes : (o : Outcome BridgeError Items) → FreezesItems o → Freezes (map_ok array o)
unfolding IsFrozen
array-Freezes (ok is) h = freezes (array is) (h.frozen is refl)
array-Freezes (err e) h = fails e

item-Freezes :
    (first : Outcome BridgeError Value) (others : Outcome BridgeError Items)
    → Freezes first
    → FreezesItems others
    → FreezesItems (elim first [ err e ↦ err e | ok value ↦ map_ok (item value) others ])
unfolding IsFrozen
item-Freezes (err e) others h k = record { frozen = λ w f. cc f }
item-Freezes (ok v) (err e) h k = record { frozen = λ w f. cc f }
item-Freezes (ok v) (ok is) h k = record {
  frozen = λ w f. subst AreFrozenItems (same_items f) (h.frozen v refl, k.frozen is refl);
}

member_refused :
    (key : Text) (value : Value) (rest ms : Members)
    → bad_key (trim_space key) ≡ true
    → clone_members (member key value rest) ms ≡ err object_key
unfolding clone_value
member_refused key value rest ms bad = rw bad refl

member_failed :
    (key : Text) (value : Value) (rest ms : Members) (e : BridgeError)
    → bad_key (trim_space key) ≡ false
    → clone_value value ≡ err e
    → clone_members (member key value rest) ms ≡ err e
unfolding clone_value
member_failed key value rest ms e good f = rw (good, f) refl

member_goes_on :
    (key : Text) (value new : Value) (rest ms : Members)
    → bad_key (trim_space key) ≡ false
    → clone_value value ≡ ok new
    → clone_members (member key value rest) ms
      ≡ clone_members rest (put_member (trim_space key) new ms)
unfolding clone_value
member_goes_on key value new rest ms good f = rw (good, f) refl

mutual
  unfolding clone_value IsFrozen

  clone-Freezes : (v : Value) → Freezes (clone_value v)
  clone-Freezes (string s) = freezes (string s) tt
  clone-Freezes (num n) = freezes (num n) tt
  clone-Freezes (boolean b) = freezes (boolean b) tt
  clone-Freezes null = freezes null tt
  clone-Freezes (fn name) =
      if-elim Freezes (is_empty (trim_space name)) (λ _. fails function_name_required)
        (λ e. freezes (fn (trim_space name)) (e, trim_space_idem name))
  clone-Freezes (object ms) = object-Freezes (clone_members ms empty) (members-Freezes ms empty tt)
  clone-Freezes (array is) = array-Freezes (clone_items is) (items-Freezes is)
  clone-Freezes (unknown_kind kind) = record { frozen = λ w f. cc f }

  members-Freezes :
      (rest ms : Members) → AreFrozenMembers [] ms → FreezesMembers (clone_members rest ms)
  members-Freezes empty ms h = record {
    frozen = λ w e. subst (AreFrozenMembers []) (same_members e) h;
  }
  members-Freezes (member key value rest) ms h = elim (Bool-cases (bad_key (trim_space key))) [
    | inl bad ↦ rw (member_refused key value rest ms bad) (fails_members object_key)
    | inr good ↦ elim (Outcome-cases (clone_value value)) [
      | inr (e, f) ↦ rw (member_failed key value rest ms e good f) (fails_members e)
      | inl (new, f) ↦ rw (member_goes_on key value new rest ms good f) (
          members-Freezes rest (put_member (trim_space key) new ms) (
            put_member-AreFrozen [] (trim_space key) new ms (trim_space_idem key) good
              ((clone-Freezes value).frozen new f) refl h))
    ]
  ]

  items-Freezes : (is : Items) → FreezesItems (clone_items is)
  items-Freezes nil = record { frozen = λ w e. subst AreFrozenItems (same_items e) tt }
  items-Freezes (item value rest) =
      item-Freezes (clone_value value) (clone_items rest) (clone-Freezes value) (items-Freezes rest)

-- A value that was cloned is cloned to itself.
pub clone_value_idem : (v w : Value) → clone_value v ≡ ok w → clone_value w ≡ ok w
clone_value_idem v w e = IsFrozen-clone w ((clone-Freezes v).frozen w e)
