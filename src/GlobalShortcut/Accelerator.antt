-- ===== src/GlobalShortcut/Accelerator.antt =====
-- internal/globalshortcut/accelerator.go: reading and writing an accelerator.
-- The case of a rune beyond ASCII is Unicode's: the parameter `CaseTable`.
pub mod Canonical
pub mod RoundTrip
pub mod Tests
use golectron.Prelude.{
  ℕ, ◌+◌, ◌-◌, Bool, true, false, not, ◌&&◌, ◌||◌, Option, none, some, List, [], ◌∷◌, ◌++◌, Outcome,
  ok, err, ltb, leb, ◌==◌, any, map, if◌then◌else◌,
}
use golectron.Text.{Text, codes, text_eq, is_empty, trim_space, split, join}

pub data Reason : Type 0 where
  empty_token modifier_after_key duplicate_modifier key_not_final missing_key : Reason

pub data AcceleratorError : Type 0 where
  accelerator_required : AcceleratorError
  invalid_accelerator : Reason → AcceleratorError

pub record Accelerator : Type 0 where
  pub modifiers : List Text
  pub key : Text

-- `unicode.ToLower` and `unicode.ToUpper` from rune 128 on.
pub record CaseTable : Type 0 where
  pub lower : ℕ → ℕ
  pub upper : ℕ → ℕ

abbrev plus : ℕ
plus = b'+'

pub remove_spaces : Text → Text
remove_spaces [] = []
remove_spaces (c ∷ s) = if c == 32 then remove_spaces s else c ∷ remove_spaces s

-- The switch of `canonicalModifier`, on the lowered token.
pub modifier_of : Text → Option Text
modifier_of word =
    if text_eq word (codes "commandorcontrol") || text_eq word (codes "cmdorctrl")
    then some (codes "CommandOrControl")
    else if text_eq word (codes "command") || text_eq word (codes "cmd")
    then some (codes "Command")
    else if text_eq word (codes "control") || text_eq word (codes "ctrl")
    then some (codes "Control")
    else if text_eq word (codes "alt") || text_eq word (codes "option")
    then some (codes "Alt")
    else if text_eq word (codes "altgr")
    then some (codes "AltGr")
    else if text_eq word (codes "shift")
    then some (codes "Shift")
    else if text_eq word (codes "super") || text_eq word (codes "meta")
    then some (codes "Super")
    else none

-- `Accelerator.String`
pub to_string : Accelerator → Text
to_string a = elim a.modifiers [ [] ↦ a.key | m ∷ ms ↦ join (m ∷ ms ++ a.key ∷ []) plus ]

abbrev is_last : List Text → Bool
is_last [] = true
is_last (p ∷ ps) = false

module _ (table : CaseTable) where
  unfoldable pub to_lower : ℕ → ℕ
  to_lower c = if ltb c 128 then if leb b'A' c && leb c b'Z' then c + 32 else c else table.lower c

  unfoldable pub to_upper : ℕ → ℕ
  to_upper c = if ltb c 128 then if leb b'a' c && leb c b'z' then c - 32 else c else table.upper c

  pub canonical_modifier : Text → Option Text
  canonical_modifier token = modifier_of (map to_lower (remove_spaces token))

  pub canonical_key : Text → Text
  canonical_key [] = []
  canonical_key (c ∷ []) = to_upper c ∷ []
  canonical_key (c ∷ d ∷ s) = c ∷ d ∷ s

  -- The loop of `ParseAccelerator`, over the parts that are left, and its end.
  pub parse_parts : List Text → Text → List Text → Outcome AcceleratorError Accelerator
  parse_parts [] key modifiers =
      if is_empty key
      then err (invalid_accelerator missing_key)
      else ok (record { modifiers = modifiers; key = key })
  parse_parts (part ∷ parts) key modifiers =
      let token = trim_space part in
      if is_empty token
      then err (invalid_accelerator empty_token)
      else elim (canonical_modifier token) [
        | some modifier ↦
            if not (is_empty key)
            then err (invalid_accelerator modifier_after_key)
            else if any (text_eq modifier) modifiers
            then err (invalid_accelerator duplicate_modifier)
            else parse_parts parts key (modifiers ++ modifier ∷ [])
        | none ↦
            if not (is_last parts)
            then err (invalid_accelerator key_not_final)
            else parse_parts parts (canonical_key token) modifiers
      ]

  pub parse_accelerator : Text → Outcome AcceleratorError Accelerator
  parse_accelerator raw =
      let trimmed = trim_space raw in
      if is_empty trimmed then err accelerator_required else parse_parts (split trimmed plus) [] []
