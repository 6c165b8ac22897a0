-- ===== src/Isa/Insn.antt =====
-- Instructions, and the words that stand for them. An immediate is a 32-bit word.
use riscv_vibecoded.Isa.Fields.{
  slice, bit, imm_i, imm_s, imm_b, imm_j, imm_u, c_imm_sext6, c_imm_lui, c_imm_16sp, c_imm_4spn,
  c_imm_cl, c_imm_lwsp, c_imm_swsp, c_imm_cb, c_imm_cj, c_shamt,
}
use riscv_vibecoded.Prelude.{ℕ, ◌+◌, ◌*◌, ◌^◌, ◌<◌, ◌==◌, if◌then◌else◌, Option, none, some, ◌≡◌}
use riscv_vibecoded.Py.Int.{ℤ, pos}

-- The formats of the base instruction set, with funct3 and funct7 kept as they stand in the word.
pub data Insn : Type 0 where
  op : (funct7 funct3 rs1 rs2 rd : ℕ) → Insn
  op_imm : (funct3 rs1 rd imm : ℕ) → Insn
  load_upper : (rd imm : ℕ) → Insn
  add_upper_pc : (rd imm : ℕ) → Insn
  jump_link : (rd imm : ℕ) → Insn
  jump_link_reg : (rs1 rd imm : ℕ) → Insn
  branch_if : (funct3 rs1 rs2 imm : ℕ) → Insn
  load_from : (funct3 rs1 rd imm : ℕ) → Insn
  store_to : (funct3 rs1 rs2 imm : ℕ) → Insn
  misc_mem : (funct3 : ℕ) → Insn
  system : (funct3 csr rs1 rd : ℕ) → Insn

unfoldable pub decode32 : ℕ → Option Insn
decode32 w =
    let opcode = slice 6 0 w in
    let rd = slice 11 7 w in
    let funct3 = slice 14 12 w in
    let rs1 = slice 19 15 w in
    let rs2 = slice 24 20 w in
    if opcode == 0b0110011
    then some (op (slice 31 25 w) funct3 rs1 rs2 rd)
    else if opcode == 0b0010011
    then some (op_imm funct3 rs1 rd (imm_i w))
    else if opcode == 0b0110111
    then some (load_upper rd (imm_u w))
    else if opcode == 0b0010111
    then some (add_upper_pc rd (imm_u w))
    else if opcode == 0b1101111
    then some (jump_link rd (imm_j w))
    else if opcode == 0b1100111
    then (if funct3 == 0 then some (jump_link_reg rs1 rd (imm_i w)) else none)
    else if opcode == 0b1100011
    then some (branch_if funct3 rs1 rs2 (imm_b w))
    else if opcode == 0b0000011
    then some (load_from funct3 rs1 rd (imm_i w))
    else if opcode == 0b0100011
    then some (store_to funct3 rs1 rs2 (imm_s w))
    else if opcode == 0b0001111
    then some (misc_mem funct3)
    else if opcode == 0b1110011
    then some (system funct3 (slice 31 20 w) rs1 rd)
    else none

-- A reserved encoding is `none`.
unfoldable pub unless_zero : ℕ → Insn → Option Insn
unless_zero x i = if x == 0 then none else some i

unfoldable pub decode_quad0 : ℕ → Option Insn
unfolding unless_zero
decode_quad0 w =
    let funct3 = slice 15 13 w in
    let low = 8 + slice 4 2 w in
    let high = 8 + slice 9 7 w in
    if funct3 == 0b000
    then unless_zero (c_imm_4spn w) (op_imm 0 2 low (c_imm_4spn w))
    else if funct3 == 0b010
    then some (load_from 2 high low (c_imm_cl w))
    else if funct3 == 0b110
    then some (store_to 2 high low (c_imm_cl w))
    else none

-- c.srli, c.srai, c.andi and the register operations.
unfoldable pub decode_quad1_alu : ℕ → Option Insn
decode_quad1_alu w =
    let kind = slice 11 10 w in
    let low = 8 + slice 4 2 w in
    let high = 8 + slice 9 7 w in
    let function = slice 6 5 w in
    if kind == 0b10
    then some (op_imm 7 high high (c_imm_sext6 w))
    else if bit 12 w == 1
    then none
    else if kind == 0b00
    then some (op_imm 5 high high (c_shamt w))
    else if kind == 0b01
    then some (op_imm 5 high high (0x400 + c_shamt w))
    else if function == 0b00
    then some (op 0x20 0 high low high)
    else if function == 0b01
    then some (op 0 4 high low high)
    else if function == 0b10
    then some (op 0 6 high low high)
    else some (op 0 7 high low high)

unfoldable pub decode_quad1 : ℕ → Option Insn
unfolding unless_zero decode_quad1_alu
decode_quad1 w =
    let funct3 = slice 15 13 w in
    let rd = slice 11 7 w in
    let high = 8 + slice 9 7 w in
    if funct3 == 0b000
    then some (op_imm 0 rd rd (c_imm_sext6 w))
    else if funct3 == 0b001
    then some (jump_link 1 (c_imm_cj w))
    else if funct3 == 0b010
    then some (op_imm 0 0 rd (c_imm_sext6 w))
    else if funct3 == 0b011
    then (if rd == 2
        then unless_zero (c_imm_16sp w) (op_imm 0 2 2 (c_imm_16sp w))
        else unless_zero (c_imm_lui w) (load_upper rd (c_imm_lui w)))
    else if funct3 == 0b100
    then decode_quad1_alu w
    else if funct3 == 0b101
    then some (jump_link 0 (c_imm_cj w))
    else if funct3 == 0b110
    then some (branch_if 0 high 0 (c_imm_cb w))
    else some (branch_if 1 high 0 (c_imm_cb w))

-- c.mv, c.jr, c.add, c.jalr and c.ebreak.
unfoldable pub decode_quad2_reg : ℕ → Option Insn
unfolding unless_zero
decode_quad2_reg w =
    let rd = slice 11 7 w in
    let rs2 = slice 6 2 w in
    if bit 12 w == 0
    then (if rs2 == 0 then unless_zero rd (jump_link_reg rd 0 0) else some (op 0 0 0 rs2 rd))
    else if rs2 == 0
    then (if rd == 0 then some (system 0 1 0 0) else some (jump_link_reg rd 1 0))
    else some (op 0 0 rd rs2 rd)

unfoldable pub decode_quad2 : ℕ → Option Insn
unfolding unless_zero decode_quad2_reg
decode_quad2 w =
    let funct3 = slice 15 13 w in
    let rd = slice 11 7 w in
    if funct3 == 0b000
    then (if bit 12 w == 1 then none else some (op_imm 1 rd rd (c_shamt w)))
    else if funct3 == 0b010
    then unless_zero rd (load_from 2 2 rd (c_imm_lwsp w))
    else if funct3 == 0b100
    then decode_quad2_reg w
    else if funct3 == 0b110
    then some (store_to 2 2 (slice 6 2 w) (c_imm_swsp w))
    else none

unfoldable pub decode16 : ℕ → Option Insn
unfolding decode_quad0 decode_quad1 decode_quad2
decode16 w =
    let quadrant = slice 1 0 w in
    if quadrant == 0b00
    then decode_quad0 w
    else if quadrant == 0b01
    then decode_quad1 w
    else if quadrant == 0b10
    then decode_quad2 w
    else none

-- A word with both low bits set is a 32-bit instruction, any other a 16-bit one.
unfoldable pub bytes : ℕ → ℕ
bytes w = if slice 1 0 w == 0b11 then 4 else 2

unfoldable pub decode : ℕ → Option Insn
decode w = if slice 1 0 w == 0b11 then decode32 w else decode16 w

-- The value v is the encoding of i in n bytes: a word of that size, which reads back as i.
pub record Encodes (v : ℤ) (n : ℕ) (i : Insn) : Type 0 where
  pub word : ℕ
  pub is_word : v ≡ pos word
  pub fits : word < 2 ^ (8 * n)
  pub sized : bytes word ≡ n
  pub decoded : decode word ≡ some i

-- A word of quadrant 1 with funct3 100 is one of the register operations.
pub decode-quad1_alu : (w : ℕ) → slice 1 0 w ≡ 1 → slice 15 13 w ≡ 4 → decode w ≡ decode_quad1_alu w
unfolding decode decode16 decode_quad1
decode-quad1_alu w quadrant funct3 = rw (quadrant, funct3)
