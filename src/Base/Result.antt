-- ===== src/Base/Result.antt =====
-- Python's exceptions as values: what a call returns or raises.
use mathlib.Core.Path.{◌≡◌, refl}
use mathlib.Core.Logic.{◌⊎◌, inl, inr}

pub data Error : Type 0 where
  value_error type_error key_error index_error attribute_error os_error stop_iteration : Error
  rest_error certificate_error disconnected : Error

pub data Result {ℓ} (T : Type ℓ) : Type ℓ where
  err : Error → Result T
  ok : T → Result T

pub Result-cases :
    {A : Type 0} (r : Result A) → ((e : Error) × (r ≡ err e)) ⊎ ((x : A) × (r ≡ ok x))
Result-cases (ok x) = inr (x, refl)
Result-cases (err e) = inl (e, refl)
