-- ===== src/Py/Error.antt =====
-- Python's exceptions as values.
use riscv_vibecoded.Prelude.{◌≡◌, ◌⊎◌, inl, inr, refl, arith}

-- Exceptions that the code raises, or lets through.
pub data Error : Type 0 where
  value_error key_error index_error assertion_error file_not_found called_process_error : Error

pub data Result {ℓ} (A : Type ℓ) : Type ℓ where
  ok : A → Result A
  err : Error → Result A

module _ {ℓ κ} {A : Type ℓ} {B : Type κ} where
  infixl 5 ◌>>=◌
  abbrev pub ◌>>=◌ : Result A → (A → Result B) → Result B
  ok x >>= next = next x
  err raised >>= next = err raised

  -- A chain of steps succeeds only if each of them does.
  pub >>=-eq-ok :
      (first : Result A) (next : A → Result B) {y : B}
      → (first >>= next) ≡ ok y
      → (x : A) × (first ≡ ok x) × (next x ≡ ok y)
  >>=-eq-ok (ok x) next h = (x, refl, h)
  >>=-eq-ok (err raised) next h = ground arith

pub Result-cases {ℓ} :
    {A : Type ℓ} (m : Result A) → ((x : A) × (m ≡ ok x)) ⊎ ((e : Error) × (m ≡ err e))
Result-cases (ok x) = inl (x, refl)
Result-cases (err e) = inr (e, refl)
