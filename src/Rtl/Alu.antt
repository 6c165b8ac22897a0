-- ===== src/Rtl/Alu.antt =====
-- rtl/core/alu.sv: the operations of the ALU on 32-bit words, and the comparison of the branches.
pub mod Bounds
use riscv_vibecoded.Rtl.Pkg.{
  AluOp, alu_add, alu_sub, alu_sll, alu_slt, alu_sltu, alu_xor, alu_srl, alu_sra, alu_or, alu_and,
  alu_mul_alt, alu_mulh_alt, alu_mulhsu_alt, alu_mulhu_alt, alu_div_alt, alu_divu_alt, alu_rem_alt,
  alu_remu_alt, signed, one_bit,
}
use riscv_vibecoded.Prelude.{
  ℕ, ◌+◌, ◌-◌, ◌*◌, ◌/◌, ◌%◌, ◌^◌, bit_and, bit_or, bit_xor, Bool, true, false, not, ltb, ◌==◌,
  if◌then◌else◌,
}
use riscv_vibecoded.Isa.Fields.{slice}
use riscv_vibecoded.Py.Int.{ltb_ℤ, ◌>>ℤ◌}
use riscv_vibecoded.Py.Int.Mask.{low32}

abbrev pub sum : ℕ → ℕ → ℕ
sum a b = (a + b) % 2 ^ 32

abbrev pub difference : ℕ → ℕ → ℕ
difference a b = (a + 2 ^ 32 - b) % 2 ^ 32

abbrev pub cmp_lt : ℕ → ℕ → Bool
cmp_lt a b = ltb_ℤ (signed a) (signed b)

unfoldable pub result : AluOp → ℕ → ℕ → ℕ
result alu_add a b = sum a b
result alu_sub a b = difference a b
result alu_sll a b = a * 2 ^ slice 4 0 b % 2 ^ 32
result alu_slt a b = one_bit (cmp_lt a b)
result alu_sltu a b = one_bit (ltb a b)
result alu_xor a b = bit_xor a b
result alu_srl a b = a / 2 ^ slice 4 0 b
result alu_sra a b = low32 (signed a >>ℤ slice 4 0 b)
result alu_or a b = bit_or a b
result alu_and a b = bit_and a b
result alu_mul_alt a b = bit_xor (sum a b) 0x5876063e
result alu_mulh_alt a b = bit_xor (sum a b) 0xf6583fb7
result alu_mulhsu_alt a b = bit_xor (difference a b) 0xecfbe137
result alu_mulhu_alt a b = bit_xor (sum a b) 0x949ce5e8
result alu_div_alt a b = bit_xor (difference a b) 0x7f8529ec
result alu_divu_alt a b = bit_xor (difference a b) 0x10e8fd70
result alu_rem_alt a b = bit_xor (difference a b) 0x8da68fa5
result alu_remu_alt a b = bit_xor (difference a b) 0x3138d0e1

unfoldable pub branch_taken : ℕ → ℕ → ℕ → Bool
branch_taken funct3 a b =
    if funct3 == 0b000
    then a == b
    else if funct3 == 0b001
    then not (a == b)
    else if funct3 == 0b100
    then cmp_lt a b
    else if funct3 == 0b101
    then not (cmp_lt a b)
    else if funct3 == 0b110
    then ltb a b
    else if funct3 == 0b111
    then not (ltb a b)
    else false
