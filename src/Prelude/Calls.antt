-- ===== src/Prelude/Calls.antt =====
-- A Go call that returns a value and an `error`: `ok a` is `(a, nil)`.
use mathlib.Core.Path.{◌≡◌, refl}
use mathlib.Core.Logic.{◌⊎◌, inl, inr}
use mathlib.Core.Option.{Option, none, some}

pub data Outcome {ℓ} (E A : Type ℓ) : Type ℓ where
  ok : A → Outcome E A
  err : E → Outcome E A

infixl 5 ◌>>=◌ ◌>>◌
abbrev pub ◌>>=◌ {ℓ} : {E A B : Type ℓ} → Outcome E A → (A → Outcome E B) → Outcome E B
ok a >>= f = f a
err e >>= f = err e

abbrev pub ◌>>◌ {ℓ} : {E A B : Type ℓ} → Outcome E A → Outcome E B → Outcome E B
m >> k = m >>= λ _. k

-- `if err := …; err != nil { return err }`: the first error ends the call, with the state as it is.
abbrev pub check {ℓ} : {E S : Type ℓ} → Option E → S → Option E × S → Option E × S
check none s rest = rest
check (some e) s rest = (some e, s)

pub check-elim {ℓ κ} :
    {E S : Type ℓ} (P : Option E × S → Type κ) (o : Option E) {s : S} {rest : Option E × S}
    → ((e : E) → o ≡ some e → P (some e, s))
    → (o ≡ none → P rest)
    → P (check o s rest)
check-elim P none refused passed = passed refl
check-elim P (some e) refused passed = refused e refl

pub Outcome-cases {ℓ} :
    {E A : Type ℓ} (o : Outcome E A) → ((a : A) × (o ≡ ok a)) ⊎ ((e : E) × (o ≡ err e))
Outcome-cases (ok a) = inl (a, refl)
Outcome-cases (err e) = inr (e, refl)
