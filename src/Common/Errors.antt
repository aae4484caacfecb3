-- ===== src/Common/Errors.antt =====
-- Exceptions as values: a call returns its result or the error that it throws.
use mathlib.Core.Path.{◌≡◌, refl}
use mathlib.Core.Logic.{◌⊎◌, inl, inr}
use mathlib.Core.Bool.{Bool, true, false}
use mathlib.Core.Option.{Option, none, some}

pub data Result {ℓ κ} (E : Type ℓ) (A : Type κ) : Type (ℓ ⊔ κ) where
  ok : A → Result E A
  err : E → Result E A

infixl 5 ◌>>=◌ ◌>>◌
abbrev pub ◌>>=◌ {ℓ κ μ} :
    {E : Type ℓ} {A : Type κ} {B : Type μ} → Result E A → (A → Result E B) → Result E B
err thrown >>= next = err thrown
ok value >>= next = next value

abbrev pub ◌>>◌ {ℓ κ} : {E : Type ℓ} {B : Type κ} → Result E (Unit {0}) → Result E B → Result E B
check >> rest = check >>= λ passed. rest

-- `if (!test) throw e`.
abbrev pub guard {ℓ} : {E : Type ℓ} → Bool → E → Result E (Unit {0})
guard false thrown = err thrown
guard true thrown = ok tt

-- `if (value === undefined) throw e`.
abbrev pub require {ℓ κ} : {E : Type ℓ} {A : Type κ} → Option A → E → Result E A
require (some a) e = ok a
require none e = err e

-- What a result satisfies where the call returns.
abbrev pub Returns {ℓ κ} : {E : Type ℓ} {A : Type κ} → Result E A → (A → Type 0) → Type 0
Returns (ok a) P = P a
Returns (err e) P = ⊥

-- To split on the outcome of a call and keep the equation.
pub Result-cases {ℓ κ} :
    {E : Type ℓ} {A : Type κ} (m : Result E A)
    → ((thrown : E) × (m ≡ err thrown)) ⊎ ((value : A) × (m ≡ ok value))
Result-cases (err thrown) = inl (thrown, refl)
Result-cases (ok value) = inr (value, refl)
