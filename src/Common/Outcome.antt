-- ===== src/Common/Outcome.antt =====
-- C++ code that may throw: a value, or an exception with its kind.

use mathlib.Core.Path.{◌≡◌, refl}
use mathlib.Core.Logic.{◌⊎◌, inl, inr}

pub data Exception : Type 0 where
  runtime_error overflow_error out_of_range : Exception

pub data Outcome {ℓ} (A : Type ℓ) : Type ℓ where
  returned : A → Outcome A
  threw : Exception → Outcome A

infixl 5 ◌>>=◌
abbrev pub ◌>>=◌ {ℓ κ} : {A : Type ℓ} {B : Type κ} → Outcome A → (A → Outcome B) → Outcome B
returned a >>= f = f a
threw e >>= f = threw e

pub Outcome-cases {ℓ} :
    {A : Type ℓ} (o : Outcome A) → ((a : A) × (o ≡ returned a)) ⊎ ((e : Exception) × (o ≡ threw e))
Outcome-cases (returned a) = inl (a, refl)
Outcome-cases (threw e) = inr (e, refl)
