-- ===== src/Domain/Errors.antt =====
-- internal/domain/errors.go: the error values, and the result of a call that may return one.
use Prim.Native.String.{String}
use xpanel.Prelude.{ℕ, ◌≡◌, ◌⊎◌, inl, inr, refl}

pub data Error : Type 0 where
  validation_error : String → String → Error
  conflict_error : String → Error
  not_found_error : String → Error
  invalid_state_error : String → Error
  rate_limit_error : ℕ → Error
  plain_error : String → Error

pub data Result (A : Type 0) : Type 0 where
  ok : A → Result A
  err : Error → Result A

pub Result-cases :
    {A : Type 0} (r : Result A) → ((a : A) × (r ≡ ok a)) ⊎ ((e : Error) × (r ≡ err e))
Result-cases (ok a) = inl (a, refl)
Result-cases (err e) = inr (e, refl)
