-- ===== src/Notification/Normal.antt =====
-- What `normalizeOptions` of internal/notification/notification.go answers.
use golectron.Prelude.{
  ◌≡◌, refl, true, false, not, ◌&&◌, List, [], ◌∷◌, Outcome, ok, err, All, Outcome-cases,
  Bool-cases, if-elim, ◌∙◌, sym, subst, inl, inr,
}
use golectron.Text.{Text, codes, text_eq, is_empty, trim_space}
use golectron.Text.Trim.{trim_space_idem}
use golectron.Notification.{
  Action, Options, NotificationError, known_type, known_urgency, no_choices, or_else,
  normalize_action, normalize_actions, normalize_options, title_required, urgency_unknown,
}

or_else_idem : (s v : Text) → or_else (or_else s v) v ≡ or_else s v
or_else_idem [] [] = refl
or_else_idem [] (c ∷ v) = refl
or_else_idem (c ∷ s) v = refl

record IsAction (a : Action) : Type 0 where
  type : or_else a.type (codes "button") ≡ a.type
  type_known : not (known_type a.type) ≡ false
  text : trim_space a.text ≡ a.text
  text_given : is_empty a.text ≡ false
  choices_given : text_eq a.type (codes "dropdown") && no_choices a.choices ≡ false
  placeholder : trim_space a.placeholder ≡ a.placeholder

IsAction-normalize_action : (a : Action) → IsAction a → normalize_action a ≡ ok a
unfolding normalize_action
IsAction-normalize_action a h =
    rw (h.type, h.type_known, h.text, h.text_given, h.choices_given, h.placeholder) refl

answered_action : {a b : Action} → Path (Outcome NotificationError Action) (ok a) (ok b) → a ≡ b
answered_action e = cc e

normalize_action-IsAction : (a b : Action) → normalize_action a ≡ ok b → IsAction b
unfolding normalize_action
normalize_action-IsAction a b =
    if-elim (λ o. o ≡ ok b → IsAction b) (not (known_type (or_else a.type (codes "button"))))
      (λ _ h. cc h)
      (λ known.
        if-elim (λ o. o ≡ ok b → IsAction b) (is_empty (trim_space a.text)) (λ _ h. cc h)
          (λ text.
            if-elim (λ o. o ≡ ok b → IsAction b)
              (text_eq (or_else a.type (codes "button")) (codes "dropdown") && no_choices a.choices)
              (λ _ h. cc h)
              (λ choices h. subst IsAction (answered_action h) (record {
                type = or_else_idem a.type (codes "button");
                type_known = known;
                text = trim_space_idem a.text;
                text_given = text;
                choices_given = choices;
                placeholder = trim_space_idem a.placeholder;
              }))))

answered_actions :
    {a b : List Action} → Path (Outcome NotificationError (List Action)) (ok a) (ok b) → a ≡ b
answered_actions e = cc e

actions_empty : normalize_actions [] ≡ ok []
unfolding normalize_actions
actions_empty = refl

module _ (a : Action) (rest : List Action) where
  actions_refused :
      (e : NotificationError) → normalize_action a ≡ err e → normalize_actions (a ∷ rest) ≡ err e
  unfolding normalize_actions
  actions_refused e h = rw (h, normalize_actions) refl

  rest_refused :
      (b : Action) (e : NotificationError)
      → normalize_action a ≡ ok b
      → normalize_actions rest ≡ err e
      → normalize_actions (a ∷ rest) ≡ err e
  unfolding normalize_actions
  rest_refused b e h i = rw (h, i, normalize_actions) refl

  actions_normal :
      (b : Action) (bs : List Action)
      → normalize_action a ≡ ok b
      → normalize_actions rest ≡ ok bs
      → normalize_actions (a ∷ rest) ≡ ok (b ∷ bs)
  unfolding normalize_actions
  actions_normal b bs h i = rw (h, i, normalize_actions) refl

IsAction-normalize_actions :
    (rest : List Action) → All IsAction rest → normalize_actions rest ≡ ok rest
IsAction-normalize_actions [] h = actions_empty
IsAction-normalize_actions (a ∷ rest) h =
    actions_normal a rest a rest (IsAction-normalize_action a h.0)
      (IsAction-normalize_actions rest h.1)

normalize_actions-IsAction :
    (rest bs : List Action) → normalize_actions rest ≡ ok bs → All IsAction bs
normalize_actions-IsAction [] bs h =
    subst (All IsAction) (answered_actions (sym actions_empty ∙ h)) tt
normalize_actions-IsAction (a ∷ rest) bs h = elim (Outcome-cases (normalize_action a)) [
  | inr (x, e) ↦ cc (h, actions_refused a rest x e)
  | inl (b, e) ↦ elim (Outcome-cases (normalize_actions rest)) [
    | inr (x, f) ↦ cc (h, rest_refused a rest b x e f)
    | inl (cs, f) ↦
        subst (All IsAction) (answered_actions (sym (actions_normal a rest b cs e f) ∙ h))
          (normalize_action-IsAction a b e, normalize_actions-IsAction rest cs f)
  ]
]

record IsNormal (o : Options) : Type 0 where
  title_given : is_empty o.title ≡ false
  title : trim_space o.title ≡ o.title
  subtitle : trim_space o.subtitle ≡ o.subtitle
  id : trim_space o.id ≡ o.id
  group_id : trim_space o.group_id ≡ o.group_id
  group_title : trim_space o.group_title ≡ o.group_title
  reply_placeholder : trim_space o.reply_placeholder ≡ o.reply_placeholder
  urgency : or_else o.urgency (codes "normal") ≡ o.urgency
  urgency_known : not (known_urgency o.urgency) ≡ false
  actions : All IsAction o.actions

IsNormal-normalize_options : (o : Options) → IsNormal o → normalize_options o ≡ ok o
unfolding normalize_options
IsNormal-normalize_options o h =
    rw
      (
        h.title,
        h.title_given,
        h.urgency,
        h.urgency_known,
        IsAction-normalize_actions o.actions h.actions,
        h.subtitle,
        h.id,
        h.group_id,
        h.group_title,
        h.reply_placeholder,
        h.title,
        h.urgency,
      )
      refl

answered : {n m : Options} → Path (Outcome NotificationError Options) (ok n) (ok m) → n ≡ m
answered e = cc e

-- `normalizeOptions` once its title and urgency have passed.
with_actions : Options → Outcome NotificationError (List Action) → Outcome NotificationError Options
with_actions o (err e) = err e
with_actions o (ok actions) = ok (record o {
  title = trim_space o.title;
  subtitle = trim_space o.subtitle;
  id = trim_space o.id;
  group_id = trim_space o.group_id;
  group_title = trim_space o.group_title;
  reply_placeholder = trim_space o.reply_placeholder;
  urgency = or_else o.urgency (codes "normal");
  actions = actions;
})

with_actions-IsNormal :
    (o n : Options) (r : Outcome NotificationError (List Action))
    → normalize_actions o.actions ≡ r
    → is_empty (trim_space o.title) ≡ false
    → not (known_urgency (or_else o.urgency (codes "normal"))) ≡ false
    → with_actions o r ≡ ok n
    → IsNormal n
unfolding with_actions
with_actions-IsNormal o n (err x) e t u h = cc h
with_actions-IsNormal o n (ok actions) e t u h = subst IsNormal (answered h) (record {
  title_given = t;
  title = trim_space_idem o.title;
  subtitle = trim_space_idem o.subtitle;
  id = trim_space_idem o.id;
  group_id = trim_space_idem o.group_id;
  group_title = trim_space_idem o.group_title;
  reply_placeholder = trim_space_idem o.reply_placeholder;
  urgency = or_else_idem o.urgency (codes "normal");
  urgency_known = u;
  actions = normalize_actions-IsAction o.actions actions e;
})

normalize_at :
    (o : Options) (r : Outcome NotificationError (List Action))
    → normalize_actions o.actions ≡ r
    → is_empty (trim_space o.title) ≡ false
    → not (known_urgency (or_else o.urgency (codes "normal"))) ≡ false
    → normalize_options o ≡ with_actions o r
unfolding normalize_options with_actions
normalize_at o (err x) e t u = rw (t, u, e) refl
normalize_at o (ok actions) e t u = rw (t, u, e) refl

untitled :
    (o : Options) → is_empty (trim_space o.title) ≡ true → normalize_options o ≡ err title_required
unfolding normalize_options
untitled o t = rw t

unknown_urgency :
    (o : Options)
    → is_empty (trim_space o.title) ≡ false
    → not (known_urgency (or_else o.urgency (codes "normal"))) ≡ true
    → normalize_options o ≡ err urgency_unknown
unfolding normalize_options
unknown_urgency o t u = rw (t, u)

normalize_options-IsNormal : (o n : Options) → normalize_options o ≡ ok n → IsNormal n
normalize_options-IsNormal o n h = elim (Bool-cases (is_empty (trim_space o.title))) [
  | inl t ↦ cc (h, untitled o t)
  | inr t ↦ elim (Bool-cases (not (known_urgency (or_else o.urgency (codes "normal"))))) [
    | inl u ↦ cc (h, unknown_urgency o t u)
    | inr u ↦
        with_actions-IsNormal o n (normalize_actions o.actions) refl t u
          (sym (normalize_at o (normalize_actions o.actions) refl t u) ∙ h)
  ]
]

-- Options that were normalized, with their actions, are normalized to themselves.
pub normalize_options_idem :
    (o n : Options) → normalize_options o ≡ ok n → normalize_options n ≡ ok n
normalize_options_idem o n h = IsNormal-normalize_options n (normalize_options-IsNormal o n h)
