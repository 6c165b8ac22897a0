-- ===== src/Encoder/Compressed.antt =====
-- tools/riscv_enc.py, the RV32C helpers. A helper that takes a register of x8 .. x15 raises a
-- `ValueError` for any other.
use riscv_vibecoded.Py.Int.{ℤ, pos, ◌-ℤ◌, ◌&ℤ◌, ◌|ℤ◌, ◌<<ℤ◌, ◌>>ℤ◌, leb_ℤ, eqb_ℤ}
use riscv_vibecoded.Py.Error.{Result, ok, err, value_error, ◌>>=◌}
use riscv_vibecoded.Encoder.{mask32}
use riscv_vibecoded.Prelude.{Option, none, some, ◌&&◌, if◌then◌else◌}

abbrev pub c_opc_quad0 : ℤ
c_opc_quad0 = pos 0b00

abbrev pub c_opc_quad1 : ℤ
c_opc_quad1 = pos 0b01

abbrev pub c_opc_quad2 : ℤ
c_opc_quad2 = pos 0b10

-- _spn
unfoldable pub spn : ℤ → Result ℤ
spn r = if leb_ℤ (pos 8) r && leb_ℤ r (pos 15) then ok (r -ℤ pos 8) else err value_error

-- _ci_imm
unfoldable pub ci_imm : ℤ → ℤ
ci_imm imm = (imm >>ℤ 5 &ℤ pos 1) <<ℤ 12 |ℤ (imm &ℤ pos 0x1F) <<ℤ 2

unfoldable pub c_cr : ℤ → ℤ → ℤ → ℤ
c_cr funct4 rs1 rs2 = mask32 (funct4 <<ℤ 12 |ℤ rs1 <<ℤ 7 |ℤ rs2 <<ℤ 2 |ℤ c_opc_quad2)

-- The optional `rd` has to be `rs1`.
unfoldable pub c_add : ℤ → ℤ → Option ℤ → Result ℤ
c_add rs1 rs2 none = ok (c_cr (pos 0x9) rs1 rs2)
c_add rs1 rs2 (some rd) = if eqb_ℤ rd rs1 then ok (c_cr (pos 0x9) rs1 rs2) else err value_error

unfoldable pub c_mv : ℤ → ℤ → ℤ
c_mv rd rs2 = c_cr (pos 0x8) rd rs2

unfoldable pub c_jr : ℤ → ℤ
c_jr rs1 = c_cr (pos 0x8) rs1 (pos 0)

unfoldable pub c_jalr : ℤ → ℤ
c_jalr rs1 = c_cr (pos 0x9) rs1 (pos 0)

unfoldable pub c_ebreak : ℤ
c_ebreak = c_cr (pos 0x9) (pos 0) (pos 0)

unfoldable pub c_addi : ℤ → ℤ → ℤ
c_addi rs1 imm = mask32 (pos 0b000 <<ℤ 13 |ℤ rs1 <<ℤ 7 |ℤ ci_imm imm |ℤ c_opc_quad1)

unfoldable pub c_li : ℤ → ℤ → ℤ
c_li rd imm = mask32 (pos 0b010 <<ℤ 13 |ℤ rd <<ℤ 7 |ℤ ci_imm imm |ℤ c_opc_quad1)

unfoldable pub c_lui : ℤ → ℤ → ℤ
c_lui rd imm = mask32 (
    pos 0b011 <<ℤ 13
    |ℤ rd <<ℤ 7
    |ℤ (imm >>ℤ 17 &ℤ pos 1) <<ℤ 12
    |ℤ (imm >>ℤ 12 &ℤ pos 0x1F) <<ℤ 2
    |ℤ c_opc_quad1)

unfoldable pub c_addi16sp : ℤ → ℤ
c_addi16sp imm = mask32 (
    pos 0b011 <<ℤ 13
    |ℤ pos 2 <<ℤ 7
    |ℤ (imm >>ℤ 9 &ℤ pos 1) <<ℤ 12
    |ℤ (imm >>ℤ 8 &ℤ pos 1) <<ℤ 4
    |ℤ (imm >>ℤ 7 &ℤ pos 1) <<ℤ 3
    |ℤ (imm >>ℤ 6 &ℤ pos 1) <<ℤ 5
    |ℤ (imm >>ℤ 5 &ℤ pos 1) <<ℤ 2
    |ℤ (imm >>ℤ 4 &ℤ pos 1) <<ℤ 6
    |ℤ c_opc_quad1)

unfoldable pub c_addi4spn : ℤ → ℤ → Result ℤ
c_addi4spn rd imm = do
  r ← spn rd
  ok (
      mask32 (
        pos 0b000 <<ℤ 13
        |ℤ r <<ℤ 2
        |ℤ (imm >>ℤ 9 &ℤ pos 1) <<ℤ 10
        |ℤ (imm >>ℤ 8 &ℤ pos 1) <<ℤ 9
        |ℤ (imm >>ℤ 7 &ℤ pos 1) <<ℤ 8
        |ℤ (imm >>ℤ 6 &ℤ pos 1) <<ℤ 7
        |ℤ (imm >>ℤ 5 &ℤ pos 1) <<ℤ 12
        |ℤ (imm >>ℤ 4 &ℤ pos 1) <<ℤ 11
        |ℤ (imm >>ℤ 3 &ℤ pos 1) <<ℤ 5
        |ℤ (imm >>ℤ 2 &ℤ pos 1) <<ℤ 6
        |ℤ c_opc_quad0))

unfoldable pub c_slli : ℤ → ℤ → ℤ
c_slli rs1 shamt = mask32 (
    pos 0b000 <<ℤ 13
    |ℤ rs1 <<ℤ 7
    |ℤ (shamt >>ℤ 5 &ℤ pos 1) <<ℤ 12
    |ℤ (shamt &ℤ pos 0x1F) <<ℤ 2
    |ℤ c_opc_quad2)

-- _c_shift
unfoldable pub c_shift : ℤ → ℤ → ℤ → Result ℤ
c_shift rs1 funct2 shamt = do
  r ← spn rs1
  ok (
      mask32 (
        pos 0b100 <<ℤ 13
        |ℤ funct2 <<ℤ 10
        |ℤ r <<ℤ 7
        |ℤ (shamt >>ℤ 5 &ℤ pos 1) <<ℤ 12
        |ℤ (shamt &ℤ pos 0x1F) <<ℤ 2
        |ℤ c_opc_quad1))

unfoldable pub c_srli : ℤ → ℤ → Result ℤ
c_srli rs1 shamt = c_shift rs1 (pos 0b00) shamt

unfoldable pub c_srai : ℤ → ℤ → Result ℤ
c_srai rs1 shamt = c_shift rs1 (pos 0b01) shamt

unfoldable pub c_andi : ℤ → ℤ → Result ℤ
c_andi rs1 imm = do
  r ← spn rs1
  ok (mask32 (pos 0b100 <<ℤ 13 |ℤ pos 0b10 <<ℤ 10 |ℤ r <<ℤ 7 |ℤ ci_imm imm |ℤ c_opc_quad1))

-- _c_alu
unfoldable pub c_alu : ℤ → ℤ → ℤ → Result ℤ
c_alu rs1 rs2 funct2 = do
  r1 ← spn rs1
  r2 ← spn rs2
  ok (mask32 (pos 0b100011 <<ℤ 10 |ℤ r1 <<ℤ 7 |ℤ funct2 <<ℤ 5 |ℤ r2 <<ℤ 2 |ℤ c_opc_quad1))

unfoldable pub c_sub : ℤ → ℤ → Result ℤ
c_sub rs1 rs2 = c_alu rs1 rs2 (pos 0b00)

unfoldable pub c_xor : ℤ → ℤ → Result ℤ
c_xor rs1 rs2 = c_alu rs1 rs2 (pos 0b01)

unfoldable pub c_or : ℤ → ℤ → Result ℤ
c_or rs1 rs2 = c_alu rs1 rs2 (pos 0b10)

unfoldable pub c_and : ℤ → ℤ → Result ℤ
c_and rs1 rs2 = c_alu rs1 rs2 (pos 0b11)

-- _c_cb_imm
unfoldable pub c_cb_imm : ℤ → ℤ
c_cb_imm imm =
    (imm >>ℤ 8 &ℤ pos 1) <<ℤ 12
    |ℤ (imm >>ℤ 6 &ℤ pos 0x3) <<ℤ 5
    |ℤ (imm >>ℤ 5 &ℤ pos 1) <<ℤ 2
    |ℤ (imm >>ℤ 3 &ℤ pos 0x3) <<ℤ 10
    |ℤ (imm >>ℤ 1 &ℤ pos 0x3) <<ℤ 3

unfoldable pub c_beqz : ℤ → ℤ → Result ℤ
c_beqz rs1 imm = do
  r ← spn rs1
  ok (mask32 (pos 0b110 <<ℤ 13 |ℤ r <<ℤ 7 |ℤ c_cb_imm imm |ℤ c_opc_quad1))

unfoldable pub c_bnez : ℤ → ℤ → Result ℤ
c_bnez rs1 imm = do
  r ← spn rs1
  ok (mask32 (pos 0b111 <<ℤ 13 |ℤ r <<ℤ 7 |ℤ c_cb_imm imm |ℤ c_opc_quad1))

-- _c_cj_imm
unfoldable pub c_cj_imm : ℤ → ℤ
c_cj_imm imm =
    (imm >>ℤ 11 &ℤ pos 1) <<ℤ 12
    |ℤ (imm >>ℤ 10 &ℤ pos 1) <<ℤ 8
    |ℤ (imm >>ℤ 9 &ℤ pos 1) <<ℤ 10
    |ℤ (imm >>ℤ 8 &ℤ pos 1) <<ℤ 9
    |ℤ (imm >>ℤ 7 &ℤ pos 1) <<ℤ 6
    |ℤ (imm >>ℤ 6 &ℤ pos 1) <<ℤ 7
    |ℤ (imm >>ℤ 5 &ℤ pos 1) <<ℤ 2
    |ℤ (imm >>ℤ 4 &ℤ pos 1) <<ℤ 11
    |ℤ (imm >>ℤ 3 &ℤ pos 1) <<ℤ 5
    |ℤ (imm >>ℤ 2 &ℤ pos 1) <<ℤ 4
    |ℤ (imm >>ℤ 1 &ℤ pos 1) <<ℤ 3

unfoldable pub c_j : ℤ → ℤ
c_j imm = mask32 (pos 0b101 <<ℤ 13 |ℤ c_cj_imm imm |ℤ c_opc_quad1)

unfoldable pub c_jal : ℤ → ℤ
c_jal imm = mask32 (pos 0b001 <<ℤ 13 |ℤ c_cj_imm imm |ℤ c_opc_quad1)

-- _c_cl_imm
unfoldable pub c_cl_imm : ℤ → ℤ
c_cl_imm imm =
    (imm >>ℤ 6 &ℤ pos 1) <<ℤ 5
    |ℤ (imm >>ℤ 5 &ℤ pos 1) <<ℤ 12
    |ℤ (imm >>ℤ 4 &ℤ pos 1) <<ℤ 11
    |ℤ (imm >>ℤ 3 &ℤ pos 1) <<ℤ 10
    |ℤ (imm >>ℤ 2 &ℤ pos 1) <<ℤ 6

unfoldable pub c_lw : ℤ → ℤ → ℤ → Result ℤ
c_lw rs1 rd imm = do
  r1 ← spn rs1
  r2 ← spn rd
  ok (mask32 (pos 0b010 <<ℤ 13 |ℤ r1 <<ℤ 7 |ℤ c_cl_imm imm |ℤ r2 <<ℤ 2 |ℤ c_opc_quad0))

unfoldable pub c_sw : ℤ → ℤ → ℤ → Result ℤ
c_sw rs1 rs2 imm = do
  r1 ← spn rs1
  r2 ← spn rs2
  ok (mask32 (pos 0b110 <<ℤ 13 |ℤ r1 <<ℤ 7 |ℤ c_cl_imm imm |ℤ r2 <<ℤ 2 |ℤ c_opc_quad0))

unfoldable pub c_lwsp : ℤ → ℤ → ℤ
c_lwsp rd imm = mask32 (
    pos 0b010 <<ℤ 13
    |ℤ rd <<ℤ 7
    |ℤ (imm >>ℤ 7 &ℤ pos 1) <<ℤ 3
    |ℤ (imm >>ℤ 6 &ℤ pos 1) <<ℤ 2
    |ℤ (imm >>ℤ 5 &ℤ pos 1) <<ℤ 12
    |ℤ (imm >>ℤ 4 &ℤ pos 1) <<ℤ 6
    |ℤ (imm >>ℤ 3 &ℤ pos 1) <<ℤ 5
    |ℤ (imm >>ℤ 2 &ℤ pos 1) <<ℤ 4
    |ℤ c_opc_quad2)

unfoldable pub c_swsp : ℤ → ℤ → ℤ
c_swsp rs2 imm = mask32 (
    pos 0b110 <<ℤ 13
    |ℤ rs2 <<ℤ 2
    |ℤ (imm >>ℤ 7 &ℤ pos 1) <<ℤ 8
    |ℤ (imm >>ℤ 6 &ℤ pos 1) <<ℤ 7
    |ℤ (imm >>ℤ 5 &ℤ pos 1) <<ℤ 12
    |ℤ (imm >>ℤ 4 &ℤ pos 1) <<ℤ 11
    |ℤ (imm >>ℤ 3 &ℤ pos 1) <<ℤ 10
    |ℤ (imm >>ℤ 2 &ℤ pos 1) <<ℤ 9
    |ℤ c_opc_quad2)
