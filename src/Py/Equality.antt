-- ===== src/Py/Equality.antt =====
-- Python's `==` on the keys of dictionaries and on the elements of sets.
use riscv_vibecoded.Py.Int.{ℤ, eqb_ℤ}
use riscv_vibecoded.Prelude.{Bool, true, ◌≡◌, ◌↔◌, arith}

pub record Eq {ℓ} (A : Type ℓ) : Type ℓ where
  pub same : A → A → Bool
  pub same_iff : (a b : A) → (same a b ≡ true) ↔ (a ≡ b)

pub eqb_ℤ_iff : (a b : ℤ) → (eqb_ℤ a b ≡ true) ↔ (a ≡ b)
eqb_ℤ_iff a b = ground arith

instance abbrev pub int_eq : Eq ℤ
int_eq = record { same = eqb_ℤ; same_iff = eqb_ℤ_iff }
