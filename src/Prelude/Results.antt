-- ===== src/Prelude/Results.antt =====
-- Results of code that may fail, each with the error or the value.
use mathlib.Core.Path.{◌≡◌, refl}
use mathlib.Core.Option.{Option, none, some}
use mathlib.Core.Logic.{◌⊎◌, inl, inr}

pub data Result {ℓ κ} (E : Type ℓ) (A : Type κ) : Type (ℓ ⊔ κ) where
  failed : E → Result E A
  done : A → Result E A

module _ {ℓ κ μ} {E : Type ℓ} {A : Type κ} {B : Type μ} where
  infixl 2 ◌>>=◌ ◌>>◌
  -- `a, err := step` and `if err != nil { return err }`.
  abbrev pub ◌>>=◌ : Result E A → (A → Result E B) → Result E B
  failed error >>= next = failed error
  done a >>= next = next a

  abbrev pub ◌>>◌ : Result E A → Result E B → Result E B
  failed error >> next = failed error
  done a >> next = next

module _ {ℓ κ} {E : Type ℓ} {A : Type κ} where
  -- The rest goes on where a check reports no error.
  abbrev pub unless : Option E → Result E A → Result E A
  unless none rest = rest
  unless (some error) rest = failed error

  -- An optional result whose absence is an error.
  abbrev pub or_fail : E → Option A → Result E A
  or_fail error none = failed error
  or_fail error (some a) = done a

module _ {ℓ κ μ} {E : Type ℓ} {A : Type κ} (P : A → Type μ) where
  -- The value has the property, if there is one.
  abbrev pub Gives : Result E A → Type μ
  Gives (failed error) = Unit
  Gives (done a) = P a

-- To split on a computed result and keep the equation.
pub Result-cases {ℓ κ} :
    {E : Type ℓ} {A : Type κ} (r : Result E A)
    → ((e : E) × (r ≡ failed e)) ⊎ ((a : A) × (r ≡ done a))
Result-cases (failed error) = inl (error, refl)
Result-cases (done a) = inr (a, refl)
