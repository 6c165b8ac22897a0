-- ===== src/Rtl/Alu/Bounds.antt =====
-- rtl/core/alu.sv: the results are words, and the signed operations are those of the integers that
-- the words stand for.
use riscv_vibecoded.Rtl.Pkg.{
  AluOp, alu_add, alu_sub, alu_sll, alu_slt, alu_sltu, alu_xor, alu_srl, alu_sra, alu_or, alu_and,
  alu_mul_alt, alu_mulh_alt, alu_mulhsu_alt, alu_mulhu_alt, alu_div_alt, alu_divu_alt, alu_rem_alt,
  alu_remu_alt, signed, one_bit,
}
use riscv_vibecoded.Rtl.Alu.{result, cmp_lt}
use riscv_vibecoded.Isa.Fields.{slice}
use riscv_vibecoded.Emulator.Bounds.Words.{bit_and-lt, bit_or-lt, bit_xor-lt, div-lt}
use riscv_vibecoded.Py.Int.{ℤ, pos, negsuc, pos_part, neg_part, ◌+ℤ◌, ◌-ℤ◌, ◌>>ℤ◌, ◌%ℤ◌, ltb_ℤ}
use riscv_vibecoded.Py.Int.Mask.{low32, low32-lt}
use riscv_vibecoded.Prelude.{
  ℕ, ◌-◌, ◌/◌, ◌%◌, ◌^◌, ◌<◌, ◌≤◌, ltb, Bool, if◌then◌else◌, ◌≡◌, refl, arith,
}

one_bit-lt : (b : Bool) → one_bit b < 2 ^ 32
one_bit-lt b = ground arith

-- Every operation on words gives a word.
pub result-lt : (o : AluOp) (a b : ℕ) → a < 2 ^ 32 → b < 2 ^ 32 → result o a b < 2 ^ 32
unfolding result
result-lt alu_add a b ha hb = omega arith
result-lt alu_sub a b ha hb = omega arith
result-lt alu_sll a b ha hb = omega arith
result-lt alu_slt a b ha hb = one_bit-lt (cmp_lt a b)
result-lt alu_sltu a b ha hb = one_bit-lt (ltb a b)
result-lt alu_xor a b ha hb = bit_xor-lt 32 a b ha hb
result-lt alu_srl a b ha hb = omega (arith, div-lt a (2 ^ slice 4 0 b))
result-lt alu_sra a b ha hb = low32-lt (signed a >>ℤ slice 4 0 b)
result-lt alu_or a b ha hb = bit_or-lt 32 a b ha hb
result-lt alu_and a b ha hb = bit_and-lt 32 a b ha hb
result-lt alu_mul_alt a b ha hb = bit_xor-lt 32 _ _ (omega arith) (omega arith)
result-lt alu_mulh_alt a b ha hb = bit_xor-lt 32 _ _ (omega arith) (omega arith)
result-lt alu_mulhsu_alt a b ha hb = bit_xor-lt 32 _ _ (omega arith) (omega arith)
result-lt alu_mulhu_alt a b ha hb = bit_xor-lt 32 _ _ (omega arith) (omega arith)
result-lt alu_div_alt a b ha hb = bit_xor-lt 32 _ _ (omega arith) (omega arith)
result-lt alu_divu_alt a b ha hb = bit_xor-lt 32 _ _ (omega arith) (omega arith)
result-lt alu_rem_alt a b ha hb = bit_xor-lt 32 _ _ (omega arith) (omega arith)
result-lt alu_remu_alt a b ha hb = bit_xor-lt 32 _ _ (omega arith) (omega arith)

sum_lem : (a b : ℕ) → a < 2 ^ 32 → b < 2 ^ 32 → result alu_add a b ≡ low32 (signed a +ℤ signed b)
unfolding result signed ◌+ℤ◌ ◌%ℤ◌
sum_lem a b ha hb = ground arith

difference_lem :
    (a b : ℕ) → a < 2 ^ 32 → b < 2 ^ 32 → result alu_sub a b ≡ low32 (signed a -ℤ signed b)
unfolding result signed ◌-ℤ◌ ◌%ℤ◌
difference_lem a b ha hb = ground arith

-- A number of 32 bits with a sign comes back from its word.
signed-low32 : (z : ℤ) → pos_part z < 2 ^ 31 → neg_part z ≤ 2 ^ 31 → signed (low32 z) ≡ z
unfolding signed ◌%ℤ◌
signed-low32 (pos n) hp hn = ground arith
signed-low32 (negsuc n) hp hn = ground arith

signed_small : (a : ℕ) → a < 2 ^ 31 → signed a ≡ pos a
unfolding signed
signed_small a h = ground arith

signed_large : (a : ℕ) → 2 ^ 31 ≤ a → a < 2 ^ 32 → signed a ≡ negsuc (2 ^ 32 - 1 - a)
unfolding signed
signed_large a h l = ground arith

shifted_lem :
    (z : ℤ) (k : ℕ) → pos_part z < 2 ^ 31 → neg_part z ≤ 2 ^ 31 → signed (low32 (z >>ℤ k)) ≡ z >>ℤ k
unfolding ◌>>ℤ◌
shifted_lem (pos n) k hp hn =
    signed-low32 (pos (n / 2 ^ k)) (omega (arith, div-lt n (2 ^ k))) (omega arith)
shifted_lem (negsuc n) k hp hn =
    signed-low32 (negsuc (n / 2 ^ k)) (omega arith) (omega (arith, div-lt n (2 ^ k)))

signed-range :
    (a : ℕ) → a < 2 ^ 32 → (pos_part (signed a) < 2 ^ 31) × (neg_part (signed a) ≤ 2 ^ 31)
unfolding signed
signed-range a h = (ground arith, ground arith)

-- Of words as signed numbers: the sum and the difference are those of the numbers, modulo 2 ^ 32;
-- the arithmetic shift to the right is the number's shift, rounded down, by the low five bits; the
-- comparison gives one where the first number is below the second, else zero.
pub result-signed :
    (a b : ℕ)
    → a < 2 ^ 32
    → b < 2 ^ 32
    → (result alu_add a b ≡ low32 (signed a +ℤ signed b))
      × (result alu_sub a b ≡ low32 (signed a -ℤ signed b))
      × (signed (result alu_sra a b) ≡ signed a >>ℤ (b % 32))
      × (result alu_slt a b ≡ (if ltb_ℤ (signed a) (signed b) then 1 else 0))
unfolding result
result-signed a b ha hb =
    let range = signed-range a ha in
    let amount : slice 4 0 b ≡ b % 32 = omega arith in
    (
      sum_lem a b ha hb,
      difference_lem a b ha hb,
      rw amount (shifted_lem (signed a) (b % 32) range.0 range.1),
      refl,
    )
