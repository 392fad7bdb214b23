-- ===== src/Prelude/Results.antt =====
-- A call that returns a value or raises an exception. Of an exception the gateway reads its text
-- only where a driver raises it; the others are told apart by name.
use msgate.Prelude.{◌≡◌, refl, ◌⊎◌, inl, inr, Text}

pub data Exception : Type 0 where
  integrity_error : Exception
  invalid_token : Exception
  invalid_base64 : Exception
  value_error : Exception
  raised : Text → Exception

pub data Result {ℓ} (A : Type ℓ) : Type ℓ where
  ok : A → Result A
  raise : Exception → Result A

infixl 5 ◌>>=◌
abbrev pub ◌>>=◌ {ℓ κ} : {A : Type ℓ} {B : Type κ} → Result A → (A → Result B) → Result B
ok a >>= f = f a
raise e >>= f = raise e

pub Result-cases {ℓ} :
    {A : Type ℓ} (r : Result A) → ((a : A) × (r ≡ ok a)) ⊎ ((e : Exception) × (r ≡ raise e))
Result-cases (ok a) = inl (a, refl)
Result-cases (raise e) = inr (e, refl)
