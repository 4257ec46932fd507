-- ===== src/ContextBridge.antt =====
-- internal/contextbridge/bridge.go: the values that a preload script exposes to a page.
-- A `Value` has the field that its kind uses, and a number is its 64 bits. The map of an object is
-- the list of its members, in the order in which Go ranges over it.
pub mod Frozen
pub mod Exposed
pub mod Tests
use golectron.Prelude.{
  ℕ, ℤ, pos, is_negative, int_eq, Bool, true, false, not, ◌&&◌, ◌||◌, Option, none, some, List, [],
  ◌∷◌, Outcome, ok, err, if◌then◌else◌,
}
use golectron.Text.{Text, codes, text_eq, is_empty, trim_space, contains_any}

pub data BridgeError : Type 0 where
  invalid_world invalid_api_key already_exposed preload_order mutation_not_allowed : BridgeError
  function_name_required object_key invalid_kind : BridgeError

mutual
  pub data Value : Type 0 where
    string : Text → Value
    num : ℕ → Value
    boolean : Bool → Value
    null : Value
    fn : Text → Value
    object : Members → Value
    array : Items → Value
    unknown_kind : Text → Value

  pub data Members : Type 0 where
    empty : Members
    member : Text → Value → Members → Members

  pub data Items : Type 0 where
    nil : Items
    item : Value → Items → Items

-- `object[key] = value`
pub put_member : Text → Value → Members → Members
put_member key value empty = member key value empty
put_member key value (member k old rest) =
    let later = put_member key value rest in
    if text_eq k key then member k value rest else member k old later

abbrev pub control_characters : Text
control_characters = 0 ∷ 13 ∷ 10 ∷ []

abbrev pub bad_key : Text → Bool
bad_key key = is_empty key || contains_any key control_characters

abbrev map_ok : {A B : Type 0} → (A → B) → Outcome BridgeError A → Outcome BridgeError B
map_ok f (ok a) = ok (f a)
map_ok f (err e) = err e

mutual
  pub clone_value : Value → Outcome BridgeError Value
  clone_value (string s) = ok (string s)
  clone_value (num n) = ok (num n)
  clone_value (boolean b) = ok (boolean b)
  clone_value null = ok null
  clone_value (fn name) =
      if is_empty (trim_space name) then err function_name_required else ok (fn (trim_space name))
  clone_value (object members) = map_ok object (clone_members members empty)
  clone_value (array items) = map_ok array (clone_items items)
  clone_value (unknown_kind kind) = err invalid_kind

  -- The loop over the map of an object, with the clone so far.
  pub clone_members : Members → Members → Outcome BridgeError Members
  clone_members empty cloned = ok cloned
  clone_members (member key child rest) cloned =
      let first = clone_value child in
      if bad_key (trim_space key) then err object_key else elim first [
        | err e ↦ err e
        | ok value ↦ clone_members rest (put_member (trim_space key) value cloned)
      ]

  pub clone_items : Items → Outcome BridgeError Items
  clone_items nil = ok nil
  clone_items (item child rest) =
      let first = clone_value child in
      let others = clone_items rest in
      elim first [ err e ↦ err e | ok value ↦ map_ok (item value) others ]

pub record Bridge : Type 0 where
  pub preload_complete : Bool
  pub exposures : ℤ → Text → Option Value

pub new : Bridge
new = record { preload_complete = false; exposures = λ world key. none }

abbrev pub expose_at : ℤ → Text → Value → (ℤ → Text → Option Value) → ℤ → Text → Option Value
expose_at world key value values =
    λ w k. if int_eq world w && text_eq key k then some value else values w k

abbrev bad_api_key : Text → Bool
bad_api_key key = is_empty key || contains_any key (b'.' ∷ control_characters)

-- The end of `ExposeInIsolatedWorld`, for a clone.
pub expose_cloned : ℤ → Text → Value → Bridge → Option BridgeError × Bridge
expose_cloned world key cloned b = elim (b.exposures world key) [
  | some old ↦ (some already_exposed, b)
  | none ↦ (none, record b { exposures = expose_at world key cloned b.exposures })
]

pub expose_in_isolated_world : ℤ → Text → Value → Bridge → Option BridgeError × Bridge
expose_in_isolated_world world raw_key value b =
    let key = trim_space raw_key in
    if b.preload_complete
    then (some preload_order, b)
    else if is_negative world
    then (some invalid_world, b)
    else if bad_api_key key
    then (some invalid_api_key, b)
    else elim (clone_value value) [
      | err e ↦ (some e, b)
      | ok cloned ↦ expose_cloned world key cloned b
    ]

pub expose_in_main_world : Text → Value → Bridge → Option BridgeError × Bridge
expose_in_main_world = expose_in_isolated_world (pos 0)

pub complete_preload : Bridge → Bridge
complete_preload b = record b { preload_complete = true }

abbrev found_clone : Outcome BridgeError Value → Option Value
found_clone (ok value) = some value
found_clone (err e) = none

-- `Exposure`
pub exposure : ℤ → Text → Bridge → Option Value
exposure world key b = elim (b.exposures world key) [
  | none ↦ none
  | some value ↦ found_clone (clone_value value)
]

pub mutate_exposure : ℤ → Text → Value → Bridge → BridgeError
mutate_exposure world key value b = elim (exposure world key b) [
  | none ↦ invalid_api_key
  | some old ↦ mutation_not_allowed
]

pub data Call : Type 0 where
  expose_call : ℤ → Text → Value → Call
  complete_preload_call : Call

pub perform : Call → Bridge → Bridge
perform (expose_call world key value) b = (expose_in_isolated_world world key value b).1
perform complete_preload_call b = complete_preload b

pub run : List Call → Bridge → Bridge
run [] b = b
run (c ∷ cs) b = run cs (perform c b)
