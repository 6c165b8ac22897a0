-- ===== src/Encoder/Base.antt =====
-- tools/riscv_enc.py, the RV32I helpers.
use riscv_vibecoded.Py.Int.{ℤ, pos, ◌&ℤ◌, ◌|ℤ◌, ◌<<ℤ◌, ◌>>ℤ◌}
use riscv_vibecoded.Encoder.{mask32}

abbrev pub funct3_add : ℤ
funct3_add = pos 0b000

abbrev pub funct3_sub : ℤ
funct3_sub = pos 0b000

abbrev pub funct3_beq : ℤ
funct3_beq = pos 0b000

abbrev pub funct3_bne : ℤ
funct3_bne = pos 0b001

abbrev pub funct3_blt : ℤ
funct3_blt = pos 0b100

abbrev pub funct3_bge : ℤ
funct3_bge = pos 0b101

abbrev pub funct3_bltu : ℤ
funct3_bltu = pos 0b110

abbrev pub funct3_bgeu : ℤ
funct3_bgeu = pos 0b111

abbrev pub funct3_lb : ℤ
funct3_lb = pos 0b000

abbrev pub funct3_lh : ℤ
funct3_lh = pos 0b001

abbrev pub funct3_lw : ℤ
funct3_lw = pos 0b010

abbrev pub funct3_lbu : ℤ
funct3_lbu = pos 0b100

abbrev pub funct3_lhu : ℤ
funct3_lhu = pos 0b101

abbrev pub funct3_sb : ℤ
funct3_sb = pos 0b000

abbrev pub funct3_sh : ℤ
funct3_sh = pos 0b001

abbrev pub funct3_sw : ℤ
funct3_sw = pos 0b010

unfoldable pub rtype : ℤ → ℤ → ℤ → ℤ → ℤ → ℤ
rtype f3 f7 rs1 rs2 rd =
    mask32 (f7 <<ℤ 25 |ℤ rs2 <<ℤ 20 |ℤ rs1 <<ℤ 15 |ℤ f3 <<ℤ 12 |ℤ rd <<ℤ 7 |ℤ pos 0x33)

unfoldable pub itype : ℤ → ℤ → ℤ → ℤ → ℤ
itype f3 rs1 rd imm =
    mask32 ((imm &ℤ pos 0xFFF) <<ℤ 20 |ℤ rs1 <<ℤ 15 |ℤ f3 <<ℤ 12 |ℤ rd <<ℤ 7 |ℤ pos 0x13)

unfoldable pub lui : ℤ → ℤ → ℤ
lui rd imm20 = mask32 ((imm20 &ℤ pos 0xFFFFF) <<ℤ 12 |ℤ rd <<ℤ 7 |ℤ pos 0x37)

unfoldable pub auipc : ℤ → ℤ → ℤ
auipc rd imm20 = mask32 ((imm20 &ℤ pos 0xFFFFF) <<ℤ 12 |ℤ rd <<ℤ 7 |ℤ pos 0x17)

unfoldable pub jal : ℤ → ℤ → ℤ
jal imm rd = mask32 (
    (imm >>ℤ 20 &ℤ pos 1) <<ℤ 31
    |ℤ (imm >>ℤ 1 &ℤ pos 0x3FF) <<ℤ 21
    |ℤ (imm >>ℤ 11 &ℤ pos 1) <<ℤ 20
    |ℤ (imm >>ℤ 12 &ℤ pos 0xFF) <<ℤ 12
    |ℤ rd <<ℤ 7
    |ℤ pos 0x6F)

unfoldable pub jalr : ℤ → ℤ → ℤ → ℤ
jalr rs1 rd imm = mask32 ((imm &ℤ pos 0xFFF) <<ℤ 20 |ℤ rs1 <<ℤ 15 |ℤ rd <<ℤ 7 |ℤ pos 0x67)

unfoldable pub branch : ℤ → ℤ → ℤ → ℤ → ℤ
branch f3 rs1 rs2 imm = mask32 (
    (imm >>ℤ 12 &ℤ pos 1) <<ℤ 31
    |ℤ (imm >>ℤ 11 &ℤ pos 1) <<ℤ 7
    |ℤ (imm >>ℤ 5 &ℤ pos 0x3F) <<ℤ 25
    |ℤ (imm >>ℤ 1 &ℤ pos 0xF) <<ℤ 8
    |ℤ rs2 <<ℤ 20
    |ℤ rs1 <<ℤ 15
    |ℤ f3 <<ℤ 12
    |ℤ pos 0x63)

unfoldable pub load : ℤ → ℤ → ℤ → ℤ → ℤ
load f3 rs1 rd imm =
    mask32 ((imm &ℤ pos 0xFFF) <<ℤ 20 |ℤ rs1 <<ℤ 15 |ℤ f3 <<ℤ 12 |ℤ rd <<ℤ 7 |ℤ pos 0x03)

unfoldable pub store : ℤ → ℤ → ℤ → ℤ → ℤ
store f3 rs1 rs2 imm = mask32 (
    (imm >>ℤ 5 &ℤ pos 0x7F) <<ℤ 25
    |ℤ (imm &ℤ pos 0x1F) <<ℤ 7
    |ℤ rs2 <<ℤ 20
    |ℤ rs1 <<ℤ 15
    |ℤ f3 <<ℤ 12
    |ℤ pos 0x23)

unfoldable pub fence : ℤ
fence = pos 0x0000000F
