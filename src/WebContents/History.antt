-- ===== src/WebContents/History.antt =====
-- The history and its index are a page with the pages behind and ahead of it: the specification
-- of the history, and what the three ways to move in it do there.
use mathlib.Core.List.{reverse, reverse-cons}
use golectron.Prelude.{
  suc, ◌+◌, ◌≡◌, refl, Bool, true, false, ℤ, pos, negsuc, Option, none, some, List, [], ◌∷◌, ◌++◌,
  append_assoc, length, get_elem?, take, length-append, ap, ◌∙◌, sym, arith, if◌then◌else◌,
  decrement, increment,
}
use golectron.Text.{Text}
use golectron.WebContents.{
  WebContents, entry, upto, before_last, can_go_back, can_go_forward, commit_navigation,
}

-- `behind` has the nearest page first.
pub data Trail : Type 0 where
  nowhere : Trail
  at : List Text → Text → List Text → Trail

unfoldable pub visit : Text → Trail → Trail
visit url nowhere = at [] url []
visit url (at behind here ahead) = at (here ∷ behind) url []

unfoldable pub back : Trail → Option Trail
back nowhere = none
back (at [] here ahead) = none
back (at (p ∷ behind) here ahead) = some (at behind p (here ∷ ahead))

unfoldable pub forward : Trail → Option Trail
forward nowhere = none
forward (at behind here []) = none
forward (at behind here (n ∷ ahead)) = some (at (here ∷ behind) n ahead)

-- The page shows the trail `t`: the whole history in order, the index on the current entry.
abbrev pub Depicts : {H : Type 0} → WebContents H → Trail → Type 0
Depicts wc nowhere = (wc.history ≡ []) × (wc.index ≡ negsuc 0) × (wc.current ≡ [])
Depicts wc (at behind here ahead) =
    (wc.history ≡ reverse behind ++ here ∷ ahead)
    × (wc.index ≡ pos (length behind))
    × (wc.current ≡ here)

-- The same as a fact of its own about the page.
pub record Shows {H : Type 0} (wc : WebContents H) (t : Trail) : Type 0 where
  pub shown : Depicts wc t

module _ {A : Type 0} where
  length-reverse : (xs : List A) → length (reverse xs) ≡ length xs
  length-reverse [] = refl
  length-reverse (x ∷ xs) =
      omega (
        arith,
        ap length (reverse-cons x xs),
        length-append (reverse xs) (x ∷ []),
        length-reverse xs,
      )

  take_exact : (xs ys : List A) (y : A) → take (suc (length xs)) (xs ++ y ∷ ys) ≡ xs ++ y ∷ []
  take_exact [] ys y = refl
  take_exact (x ∷ xs) ys y = rw (take_exact xs ys y)

  entry_exact : (xs ys : List A) (y : A) → get_elem? (xs ++ y ∷ ys) (length xs) ≡ some y
  entry_exact [] ys y = refl
  entry_exact (x ∷ xs) ys y = entry_exact xs ys y

  -- The same at the end of a reversed list, whose length is known by another name.
  entry-reverse : (b ys : List A) (y : A) → get_elem? (reverse b ++ y ∷ ys) (length b) ≡ some y
  entry-reverse b ys y = rw (← length-reverse b) (entry_exact (reverse b) ys y)

  take-reverse :
      (b ys : List A) (y : A) → take (suc (length b)) (reverse b ++ y ∷ ys) ≡ reverse b ++ y ∷ []
  take-reverse b ys y = rw (← length-reverse b) (take_exact (reverse b) ys y)

  length-trail : (b ys : List A) (y : A) → length (reverse b ++ y ∷ ys) ≡ length b + suc (length ys)
  length-trail b ys y = omega (arith, length-append (reverse b) (y ∷ ys), length-reverse b)

module _ {H : Type 0} (wc : WebContents H) where
  kept_behind :
      (behind : List Text) (here : Text) (ahead : List Text)
      → (if before_last (pos (length behind)) (reverse behind ++ here ∷ ahead)
          then upto (pos (length behind)) (reverse behind ++ here ∷ ahead)
          else reverse behind ++ here ∷ ahead)
        ≡ reverse behind ++ here ∷ []
  kept_behind behind here [] = ground (arith, length-trail behind [] here)
  kept_behind behind here (n ∷ ahead) =
      ground (arith, length-trail behind (n ∷ ahead) here, take-reverse behind (n ∷ ahead) here)

  -- On a page that depicts a trail, a commit drops the pages ahead and visits the new one.
  pub commit_navigation-Depicts :
      (url : Text) (t : Trail) → Depicts wc t → Depicts (commit_navigation url wc) (visit url t)
  unfolding commit_navigation visit
  commit_navigation-Depicts url nowhere (h, i, c) = rw (h, i) (refl, refl, refl)
  commit_navigation-Depicts url (at behind here ahead) (h, i, c) =
      rw (h, i)
        (rw (kept_behind behind here ahead) (
          rw (reverse-cons here behind) refl,
          ap pos (
              omega (
                arith,
                length-append (reverse behind ++ here ∷ []) (url ∷ []),
                length-append (reverse behind) (here ∷ []),
                length-reverse behind,
              )),
          refl,
        ))

abbrev pub available : Option Trail → Bool
available none = false
available (some t) = true

module _ {H : Type 0} (wc : WebContents H) where
  -- On a page that depicts a trail, `CanGoBack` tells whether the trail has a page behind.
  pub can_go_back-available : (t : Trail) → Depicts wc t → can_go_back wc ≡ available (back t)
  unfolding can_go_back back
  can_go_back-available nowhere (h, i, c) = rw i refl
  can_go_back-available (at [] here ahead) (h, i, c) = rw i refl
  can_go_back-available (at (p ∷ behind) here ahead) (h, i, c) = rw i refl

  -- On a page that depicts a trail, `CanGoForward` tells whether the trail has a page ahead.
  pub can_go_forward-available :
      (t : Trail) → Depicts wc t → can_go_forward wc ≡ available (forward t)
  unfolding can_go_forward forward
  can_go_forward-available nowhere (h, i, c) = rw i refl
  can_go_forward-available (at behind here []) (h, i, c) =
      rw (i, h) (ground (arith, length-trail behind [] here))
  can_go_forward-available (at behind here (n ∷ ahead)) (h, i, c) =
      rw (i, h) (ground (arith, length-trail behind (n ∷ ahead) here))

  -- The page at the new index, and what the page shows once it is current.
  abbrev pub Moves : ℤ → Text → Trail → Type 0
  Moves index url t =
      (entry index wc.history ≡ some url) × Depicts (record wc { index = index; current = url }) t

  pub back-Moves :
      (p here : Text) (behind ahead : List Text)
      → Depicts wc (at (p ∷ behind) here ahead)
      → Moves (decrement wc.index) p (at behind p (here ∷ ahead))
  back-Moves p here behind ahead (h, i, c) =
      let split =
        h
        ∙ ap (λ l. l ++ here ∷ ahead) (reverse-cons p behind)
        ∙ append_assoc (reverse behind) (p ∷ []) (here ∷ ahead) in
      (rw (i, split) (entry-reverse behind (here ∷ ahead) p), (split, ap decrement i, refl))

  pub forward-Moves :
      (here n : Text) (behind ahead : List Text)
      → Depicts wc (at behind here (n ∷ ahead))
      → Moves (increment wc.index) n (at (here ∷ behind) n ahead)
  forward-Moves here n behind ahead (h, i, c) =
      let split =
        h
        ∙ sym (append_assoc (reverse behind) (here ∷ []) (n ∷ ahead))
        ∙ ap (λ l. l ++ n ∷ ahead) (sym (reverse-cons here behind)) in
      (rw (i, split) (entry-reverse (here ∷ behind) ahead n), (split, ap increment i, refl))
