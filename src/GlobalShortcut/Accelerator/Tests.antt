-- ===== src/GlobalShortcut/Accelerator/Tests.antt =====
-- Runs of internal/globalshortcut/accelerator.go, and its round trip at a concrete accelerator.
use golectron.Prelude.{◌≡◌, refl, [], ◌∷◌, ok, arith}
use golectron.Text.{Text, codes, text_eq, is_space, trim_left, trim_right, trim_space, split}
use golectron.GlobalShortcut.Accelerator.{
  CaseTable, Accelerator, to_string, remove_spaces, modifier_of, to_lower, to_upper,
  canonical_modifier, canonical_key, parse_parts, parse_accelerator,
}
use golectron.GlobalShortcut.Accelerator.Canonical.{CaseLaws}
use golectron.GlobalShortcut.Accelerator.RoundTrip.{parse_accelerator-to_string}

-- A table that leaves every rune beyond ASCII as it is.
abbrev pub plain : CaseTable
plain = record { lower = λ c. c; upper = λ c. c }

pub plain-CaseLaws : CaseLaws plain
unfolding to_upper
plain-CaseLaws = record {
  upper_idem = λ c h. ground arith;
  upper_space = λ c h. refl;
  upper_plus = λ c h. ground arith;
}

abbrev pub typed : Text
typed = codes " ctrl + Shift+k "

abbrev pub read : Accelerator
read = record { modifiers = codes "Control" ∷ codes "Shift" ∷ []; key = codes "K" }

pub typed_read : parse_accelerator plain typed ≡ ok read
unfolding parse_accelerator parse_parts canonical_modifier canonical_key to_lower to_upper
    remove_spaces modifier_of text_eq trim_space trim_left trim_right is_space split
typed_read = refl

parse_accelerator-to_string_example : parse_accelerator plain (to_string read) ≡ ok read
parse_accelerator-to_string_example =
    parse_accelerator-to_string plain plain-CaseLaws typed read typed_read
