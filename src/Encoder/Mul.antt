-- ===== src/Encoder/Mul.antt =====
-- tools/riscv_enc.py, the RV32M helpers.
use riscv_vibecoded.Py.Int.{ℤ, pos}
use riscv_vibecoded.Encoder.Base.{rtype}

abbrev pub funct7_m : ℤ
funct7_m = pos 0x01

unfoldable pub mop : ℤ → ℤ → ℤ → ℤ → ℤ
mop f3 rs1 rs2 rd = rtype f3 funct7_m rs1 rs2 rd

unfoldable pub mul : ℤ → ℤ → ℤ → ℤ
mul rs1 rs2 rd = mop (pos 0b000) rs1 rs2 rd

unfoldable pub mulh : ℤ → ℤ → ℤ → ℤ
mulh rs1 rs2 rd = mop (pos 0b001) rs1 rs2 rd

unfoldable pub mulhsu : ℤ → ℤ → ℤ → ℤ
mulhsu rs1 rs2 rd = mop (pos 0b010) rs1 rs2 rd

unfoldable pub mulhu : ℤ → ℤ → ℤ → ℤ
mulhu rs1 rs2 rd = mop (pos 0b011) rs1 rs2 rd

unfoldable pub div : ℤ → ℤ → ℤ → ℤ
div rs1 rs2 rd = mop (pos 0b100) rs1 rs2 rd

unfoldable pub divu : ℤ → ℤ → ℤ → ℤ
divu rs1 rs2 rd = mop (pos 0b101) rs1 rs2 rd

unfoldable pub rem : ℤ → ℤ → ℤ → ℤ
rem rs1 rs2 rd = mop (pos 0b110) rs1 rs2 rd

unfoldable pub remu : ℤ → ℤ → ℤ → ℤ
remu rs1 rs2 rd = mop (pos 0b111) rs1 rs2 rd
