-- ===== src/GlobalShortcut/Accelerator/RoundTrip.antt =====
-- Reading an accelerator, writing it and reading it again: `ParseAccelerator` and
-- `Accelerator.String`.
use golectron.Prelude.{
  ◌≡◌, refl, true, false, none, some, Option-cases, Bool-cases, List, [], ◌∷◌, ◌++◌, append_assoc,
  append-nil, Outcome, ok, err, any, All, inl, inr, ap, ◌∙◌, subst, sym,
}
use golectron.Text.{Text, text_eq, is_empty, is_space, trim_right, trim_space, split, join}
use golectron.Text.Trim.{StartsPlain, trim_space_of_StartsPlain, trim_right-append}
use golectron.Text.Join.{Without, split-join, split-Without}
use golectron.GlobalShortcut.Accelerator.{
  CaseTable, Accelerator, AcceleratorError, empty_token, duplicate_modifier, key_not_final,
  missing_key, invalid_accelerator, accelerator_required, plus, is_last, to_string,
  canonical_modifier, canonical_key, parse_parts, parse_accelerator,
}
use golectron.GlobalShortcut.Accelerator.Canonical.{
  CaseLaws, IsToken, IsModifier, IsKey, canonical_modifier-IsModifier, canonical_key-IsKey,
  trim_space-IsToken,
}

IsToken-trim_space : {t : Text} → IsToken t → trim_space t ≡ t
IsToken-trim_space {t} h = trim_space_of_StartsPlain t h.starts ∙ h.ends

ok_value : {a b : Accelerator} → Path (Outcome AcceleratorError Accelerator) (ok a) (ok b) → a ≡ b
ok_value e = cc e

module _ (table : CaseTable) where
  -- The modifiers `ms` are written in full, differ from each other and from those in `acc`.
  abbrev Fresh : List Text → List Text → Type 0
  Fresh acc [] = Unit {0}
  Fresh acc (m ∷ ms) = IsModifier table m × (any (text_eq m) acc ≡ false) × Fresh (acc ++ m ∷ []) ms

  record IsRead (acc : List Text) (a : Accelerator) : Type 0 where
    read : List Text
    modifiers : a.modifiers ≡ acc ++ read
    fresh : Fresh acc read
    key : IsKey table a.key

  module _ (part : Text) (parts acc : List Text) where
    step_empty :
        is_empty (trim_space part) ≡ true
        → parse_parts table (part ∷ parts) [] acc ≡ err (invalid_accelerator empty_token)
    unfolding parse_parts
    step_empty e = rw e

    step_duplicate :
        (m : Text)
        → is_empty (trim_space part) ≡ false
        → canonical_modifier table (trim_space part) ≡ some m
        → any (text_eq m) acc ≡ true
        → parse_parts table (part ∷ parts) [] acc ≡ err (invalid_accelerator duplicate_modifier)
    unfolding parse_parts
    step_duplicate m e f d = rw (e, f, d)

    step_modifier :
        (m : Text)
        → is_empty (trim_space part) ≡ false
        → canonical_modifier table (trim_space part) ≡ some m
        → any (text_eq m) acc ≡ false
        → parse_parts table (part ∷ parts) [] acc ≡ parse_parts table parts [] (acc ++ m ∷ [])
    unfolding parse_parts
    step_modifier m e f d = rw (e, f, d)

    step_not_last :
        is_empty (trim_space part) ≡ false
        → canonical_modifier table (trim_space part) ≡ none
        → is_last parts ≡ false
        → parse_parts table (part ∷ parts) [] acc ≡ err (invalid_accelerator key_not_final)
    unfolding parse_parts
    step_not_last e f d = rw (e, f, d)

  step_end : (acc : List Text) → parse_parts table [] [] acc ≡ err (invalid_accelerator missing_key)
  unfolding parse_parts
  step_end acc = refl

  step_key :
      (part : Text) (acc : List Text)
      → is_empty (trim_space part) ≡ false
      → canonical_modifier table (trim_space part) ≡ none
      → is_empty (canonical_key table (trim_space part)) ≡ false
      → parse_parts table (part ∷ []) [] acc
        ≡ ok (record { modifiers = acc; key = canonical_key table (trim_space part) })
  unfolding parse_parts
  step_key part acc e f d = rw (e, f, d)

  key-IsRead :
      CaseLaws table
      → (part : Text) (acc : List Text) (a : Accelerator) → Without plus part
      → is_empty (trim_space part) ≡ false
      → canonical_modifier table (trim_space part) ≡ none
      → parse_parts table (part ∷ []) [] acc ≡ ok a
      → IsRead acc a
  key-IsRead laws part acc a w e f h =
      let key =
        canonical_key-IsKey table laws (trim_space part) (trim_space-IsToken table part w e) f in
      subst (IsRead acc) (ok_value (sym (step_key part acc e f key.token.nonempty) ∙ h))
        (record { read = []; modifiers = sym (append-nil acc); fresh = tt; key = key })

  last-IsRead :
      CaseLaws table
      → (part : Text) (parts acc : List Text) (a : Accelerator) → Without plus part
      → is_empty (trim_space part) ≡ false
      → canonical_modifier table (trim_space part) ≡ none
      → parse_parts table (part ∷ parts) [] acc ≡ ok a
      → IsRead acc a
  last-IsRead laws part [] acc a w e f h = key-IsRead laws part acc a w e f h
  last-IsRead laws part (q ∷ qs) acc a w e f h = cc (h, step_not_last part (q ∷ qs) acc e f refl)

  -- What the loop reads, when it succeeds.
  parse_parts-IsRead :
      CaseLaws table
      → (parts acc : List Text) (a : Accelerator) → All (Without plus) parts
      → parse_parts table parts [] acc ≡ ok a
      → IsRead acc a
  parse_parts-IsRead laws [] acc a w h = cc (h, step_end acc)
  parse_parts-IsRead laws (part ∷ parts) acc a w h =
      elim (Bool-cases (is_empty (trim_space part))) [
        | inl e ↦ cc (h, step_empty part parts acc e)
        | inr e ↦ elim (Option-cases (canonical_modifier table (trim_space part))) [
          | inl f ↦ last-IsRead laws part parts acc a w.0 e f h
          | inr (m, f) ↦ elim (Bool-cases (any (text_eq m) acc)) [
            | inl d ↦ cc (h, step_duplicate part parts acc m e f d)
            | inr d ↦
                let rest =
                  parse_parts-IsRead laws parts (acc ++ m ∷ []) a w.1
                    (sym (step_modifier part parts acc m e f d) ∙ h) in
                record {
                  read = m ∷ rest.read;
                  modifiers = rest.modifiers ∙ append_assoc acc (m ∷ []) rest.read;
                  fresh =
                      (canonical_modifier-IsModifier table (trim_space part) m f, d, rest.fresh);
                  key = rest.key;
                }
          ]
        ]
      ]

  -- The canonical tokens are read back as they stand.
  parse_parts_of_Fresh :
      (ms acc : List Text) (k : Text)
      → Fresh acc ms
      → IsKey table k
      → parse_parts table (ms ++ k ∷ []) [] acc ≡ ok (record { modifiers = acc ++ ms; key = k })
  parse_parts_of_Fresh [] acc k h key =
      let trim = IsToken-trim_space key.token in
      step_key k acc (rw trim key.token.nonempty) (rw trim key.no_modifier)
        (rw (trim, key.stable) key.token.nonempty)
      ∙ simp (trim, key.stable, append-nil)
  parse_parts_of_Fresh (m ∷ ms) acc k h key =
      let trim = IsToken-trim_space h.0.token in
      step_modifier m (ms ++ k ∷ []) acc m (rw trim h.0.token.nonempty) (rw trim h.0.stable) h.1
      ∙ parse_parts_of_Fresh ms (acc ++ m ∷ []) k h.2 key
      ∙ simp append_assoc

  Fresh-IsToken :
      (ms acc : List Text) (k : Text) → Fresh acc ms → IsToken k → All IsToken (ms ++ k ∷ [])
  Fresh-IsToken [] acc k h key = (key, tt)
  Fresh-IsToken (m ∷ ms) acc k h key = (h.0.token, Fresh-IsToken ms (acc ++ m ∷ []) k h.2 key)

tokens-Without : (ts : List Text) → All IsToken ts → All (Without plus) ts
tokens-Without [] h = tt
tokens-Without (t ∷ ts) h = (h.0.no_plus, tokens-Without ts h.1)

-- A join of tokens ends in no space, and starts with none.
trim_right-plus : (s : Text) → trim_right s ≡ s → trim_right (plus ∷ s) ≡ plus ∷ s
unfolding trim_right is_space
trim_right-plus [] h = refl
trim_right-plus (c ∷ s) h = rw h

trim_right-join :
    (t : Text) (ts : List Text)
    → All IsToken (t ∷ ts)
    → trim_right (join (t ∷ ts) plus) ≡ join (t ∷ ts) plus
unfolding join
trim_right-join t [] h = h.0.ends
trim_right-join t (u ∷ ts) h =
    trim_right-append t (join (u ∷ ts) plus) plus
      (trim_right-plus (join (u ∷ ts) plus) (trim_right-join u ts h.1))

join_starts :
    (t : Text) (ts : List Text)
    → IsToken t
    → StartsPlain (join (t ∷ ts) plus) × (is_empty (join (t ∷ ts) plus) ≡ false)
unfolding join
join_starts [] ts h = cc h.nonempty
join_starts (c ∷ t) [] h = (h.starts, refl)
join_starts (c ∷ t) (u ∷ ts) h = (h.starts, refl)

to_string-join :
    (ms : List Text) (k : Text)
    → to_string (record { modifiers = ms; key = k }) ≡ join (ms ++ k ∷ []) plus
unfolding to_string join
to_string-join [] k = refl
to_string-join (m ∷ ms) k = refl

module _ (table : CaseTable) where
  parse_accelerator-join :
      (t : Text) (ts : List Text)
      → All IsToken (t ∷ ts)
      → parse_accelerator table (join (t ∷ ts) plus) ≡ parse_parts table (t ∷ ts) [] []
  unfolding parse_accelerator
  parse_accelerator-join t ts h =
      let trim =
        trim_space_of_StartsPlain (join (t ∷ ts) plus) ((join_starts t ts h.0).0)
        ∙ trim_right-join t ts h in
      rw (trim, (join_starts t ts h.0).1, split-join t ts plus (tokens-Without (t ∷ ts) h)) refl

  parse_blank :
      (raw : Text)
      → is_empty (trim_space raw) ≡ true
      → parse_accelerator table raw ≡ err accelerator_required
  unfolding parse_accelerator
  parse_blank raw e = rw e

  parse_nonblank :
      (raw : Text)
      → is_empty (trim_space raw) ≡ false
      → parse_accelerator table raw ≡ parse_parts table (split (trim_space raw) plus) [] []
  unfolding parse_accelerator
  parse_nonblank raw e = rw e

  parse_accelerator-tokens :
      (ts : List Text) (k : Text)
      → All IsToken (ts ++ k ∷ [])
      → parse_accelerator table (join (ts ++ k ∷ []) plus) ≡ parse_parts table (ts ++ k ∷ []) [] []
  parse_accelerator-tokens [] k h = parse_accelerator-join k [] h
  parse_accelerator-tokens (t ∷ ts) k h = parse_accelerator-join t (ts ++ k ∷ []) h

  -- An accelerator that was read has canonical parts.
  parse_accelerator-IsRead :
      CaseLaws table
      → (raw : Text) (a : Accelerator) → parse_accelerator table raw ≡ ok a
      → IsRead table [] a
  parse_accelerator-IsRead laws raw a h = elim (Bool-cases (is_empty (trim_space raw))) [
    | inl e ↦ cc (h, parse_blank raw e)
    | inr e ↦
        parse_parts-IsRead table laws (split (trim_space raw) plus) [] a
          (split-Without (trim_space raw) plus) (sym (parse_nonblank raw e) ∙ h)
  ]

  -- Under a case table with the laws of `CaseLaws`, an accelerator that was read is read from its
  -- `String` again, as it is.
  pub parse_accelerator-to_string :
      CaseLaws table
      → (raw : Text) (a : Accelerator) → parse_accelerator table raw ≡ ok a
      → parse_accelerator table (to_string a) ≡ ok a
  parse_accelerator-to_string laws raw a h =
      let read = parse_accelerator-IsRead laws raw a h in
      let ms = read.read in
      ap (parse_accelerator table) (to_string-join a.modifiers a.key)
      ∙ ap (λ ts. parse_accelerator table (join (ts ++ a.key ∷ []) plus)) read.modifiers
      ∙ parse_accelerator-tokens ms a.key
          (Fresh-IsToken table ms [] a.key read.fresh read.key.token)
      ∙ parse_parts_of_Fresh table ms [] a.key read.fresh read.key
      ∙ ap (λ ts. ok (record { modifiers = ts; key = a.key })) (sym read.modifiers)
