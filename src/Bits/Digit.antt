-- ===== src/Bits/Digit.antt =====
-- One step of the native `bit_or` and `bit_and` on the lowest digit, without the fuel of the
-- digit recursion that they stand for.
use Prim.Native.Nat.{digits, differ, bitwise, bit_and-bitwise, bit_or-bitwise, bit_xor-bitwise}
use riscv_vibecoded.Prelude.{
  ℕ, zero, suc, ◌+◌, ◌*◌, ◌/◌, ◌%◌, ◌≤◌, min, max, bit_and, bit_or, bit_xor,
}
use riscv_vibecoded.Prelude.{◌≡◌, refl, arith}

module _ (rest : ℕ → ℕ) (digit : ℕ → ℕ → ℕ) where
  -- Any two amounts of fuel that cover the first number agree.
  fuel_irrelevant :
      (p q a b : ℕ) → a ≤ p → a ≤ q → digits rest digit p a b ≡ digits rest digit q a b
  fuel_irrelevant zero zero a b h k = refl
  fuel_irrelevant zero (suc q) zero b h k = refl
  fuel_irrelevant zero (suc q) (suc a) b h k = absurd (omega arith)
  fuel_irrelevant (suc p) zero zero b h k = refl
  fuel_irrelevant (suc p) zero (suc a) b h k = absurd (omega arith)
  fuel_irrelevant (suc p) (suc q) zero b h k = refl
  fuel_irrelevant (suc p) (suc q) (suc a) b h k =
      rw (fuel_irrelevant p q (suc a / 2) (b / 2) (omega arith) (omega arith))

  digit_step :
      (a b : ℕ)
      → bitwise rest digit (suc a) b
        ≡ bitwise rest digit (suc a / 2) (b / 2) * 2 + digit (suc a % 2) (b % 2)
  digit_step a b =
      let half : ℕ = suc a / 2 in
      omega (arith, fuel_irrelevant a half half (b / 2) (omega arith) (omega arith))

pub bit_or_digit : (a b : ℕ) → bit_or a b ≡ bit_or (a / 2) (b / 2) * 2 + max (a % 2) (b % 2)
bit_or_digit zero b = simp bit_or-bitwise (omega arith)
bit_or_digit (suc a) b = simp bit_or-bitwise (digit_step (λ y. y) max a b)

pub bit_and_digit : (a b : ℕ) → bit_and a b ≡ bit_and (a / 2) (b / 2) * 2 + min (a % 2) (b % 2)
bit_and_digit zero b = simp bit_and-bitwise (omega arith)
bit_and_digit (suc a) b = simp bit_and-bitwise (digit_step (λ y. 0) min a b)

pub bit_xor_digit : (a b : ℕ) → bit_xor a b ≡ bit_xor (a / 2) (b / 2) * 2 + differ (a % 2) (b % 2)
bit_xor_digit zero b = simp bit_xor-bitwise (omega arith)
bit_xor_digit (suc a) b = simp bit_xor-bitwise (digit_step (λ y. y) differ a b)
