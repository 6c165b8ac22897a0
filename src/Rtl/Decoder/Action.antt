-- ===== src/Rtl/Decoder/Action.antt =====
-- What an instruction does, from the instruction set on one side and from the control bundle of
-- rtl/core/decoder.sv on the other.
use riscv_vibecoded.Isa.Insn.{
  Insn, op, op_imm, load_upper, add_upper_pc, jump_link, jump_link_reg, branch_if, load_from,
  store_to, misc_mem, system,
}
use riscv_vibecoded.Isa.Fields.{slice}
use riscv_vibecoded.Rtl.Pkg.{
  AluOp, CsrOp, AluASel, AluBSel, csr_rw, csr_rs, csr_rc, opa_x0, opa_rs1, opa_pc, opb_rs2, opb_imm,
  opb_uimm, alu_add, alu_sub, alu_sll, alu_slt, alu_sltu, alu_xor, alu_srl, alu_sra, alu_or,
  alu_and, alu_mul_alt, alu_mulh_alt, alu_mulhsu_alt, alu_mulhu_alt, alu_div_alt, alu_divu_alt,
  alu_rem_alt, alu_remu_alt,
}
use riscv_vibecoded.Rtl.Decoder.Outputs.{Bundle}
use riscv_vibecoded.Prelude.{
  ℕ, Bool, true, false, leb, ◌==◌, ◌||◌, if◌then◌else◌, Option, none, some, ◌≡◌,
}

-- A register that is not x0, the program counter, or a constant.
pub data Operand : Type 0 where
  register : ℕ → Operand
  counter : Operand
  constant : ℕ → Operand

pub data Action : Type 0 where
  compute : AluOp → (a b : Operand) (rd : ℕ) → Action
  jump : (rd imm : ℕ) → Action
  jump_register : (rs1 rd imm : ℕ) → Action
  branch : (funct3 : ℕ) (a b : Operand) (imm : ℕ) → Action
  load : (funct3 : ℕ) → AluOp → (a b : Operand) (rd : ℕ) → Action
  store : (funct3 : ℕ) → AluOp → (a b : Operand) (rs2 : ℕ) → Action
  csr : CsrOp → (immediate : Bool) (addr rs1 rd : ℕ) → Action
  ecall : Action
  ebreak : Action
  mret : Action
  nothing : Action
  illegal : Action

abbrev pub read : ℕ → Operand
read r = if r == 0 then constant 0 else register r

-- The operation of a register instruction.
unfoldable pub operation : ℕ → ℕ → Option AluOp
operation funct7 funct3 =
    if funct7 == 0
    then some (
        if funct3 == 0
        then alu_add
        else if funct3 == 1
        then alu_sll
        else if funct3 == 2
        then alu_slt
        else if funct3 == 3
        then alu_sltu
        else if funct3 == 4
        then alu_xor
        else if funct3 == 5
        then alu_srl
        else if funct3 == 6
        then alu_or
        else alu_and)
    else if funct7 == 0x20
    then (if funct3 == 0 then some alu_sub else if funct3 == 5 then some alu_sra else none)
    else if funct7 == 1
    then some (
        if funct3 == 0
        then alu_mul_alt
        else if funct3 == 1
        then alu_mulh_alt
        else if funct3 == 2
        then alu_mulhsu_alt
        else if funct3 == 3
        then alu_mulhu_alt
        else if funct3 == 4
        then alu_div_alt
        else if funct3 == 5
        then alu_divu_alt
        else if funct3 == 6
        then alu_rem_alt
        else alu_remu_alt)
    else none

-- A shift by an immediate has its funct7 in the bits above the amount.
unfoldable pub immediate_operation : ℕ → ℕ → Option AluOp
immediate_operation funct3 imm =
    if funct3 == 1
    then (if slice 11 5 imm == 0 then some alu_sll else none)
    else if funct3 == 5
    then (if slice 11 5 imm == 0
        then some alu_srl
        else if slice 11 5 imm == 0x20
        then some alu_sra
        else none)
    else operation 0 funct3

abbrev pub immediate_value : ℕ → ℕ → ℕ
immediate_value funct3 imm = if funct3 == 1 || funct3 == 5 then slice 4 0 imm else imm

abbrev pub computed : Option AluOp → (a b : Operand) → ℕ → Action
computed none a b rd = illegal
computed (some o) a b rd = compute o a b rd

unfoldable pub environment_action : ℕ → Action
environment_action code =
    if code == 0x000
    then ecall
    else if code == 0x001
    then ebreak
    else if code == 0x302
    then mret
    else if code == 0x105
    then nothing
    else illegal

unfoldable pub csr_action : (funct3 addr rs1 rd : ℕ) → Action
csr_action funct3 addr rs1 rd =
    if funct3 == 4
    then illegal
    else if funct3 == 1
    then csr csr_rw false addr rs1 rd
    else if funct3 == 2
    then csr csr_rs false addr rs1 rd
    else if funct3 == 3
    then csr csr_rc false addr rs1 rd
    else if funct3 == 5
    then csr csr_rw true addr 0 rd
    else if funct3 == 6
    then csr csr_rs true addr 0 rd
    else csr csr_rc true addr 0 rd

-- What the instruction set says.
unfoldable pub insn_action : Insn → Action
insn_action (op funct7 funct3 rs1 rs2 rd) =
    computed (operation funct7 funct3) (read rs1) (read rs2) rd
insn_action (op_imm funct3 rs1 rd imm) =
    computed (immediate_operation funct3 imm) (read rs1) (constant (immediate_value funct3 imm)) rd
insn_action (load_upper rd imm) = compute alu_add (constant 0) (constant imm) rd
insn_action (add_upper_pc rd imm) = compute alu_add counter (constant imm) rd
insn_action (jump_link rd imm) = jump rd imm
insn_action (jump_link_reg rs1 rd imm) = jump_register rs1 rd imm
insn_action (branch_if funct3 rs1 rs2 imm) =
    if funct3 == 2 || funct3 == 3 then illegal else branch funct3 (read rs1) (read rs2) imm
insn_action (load_from funct3 rs1 rd imm) =
    if funct3 == 3 || funct3 == 6 || funct3 == 7
    then illegal
    else load funct3 alu_add (read rs1) (constant imm) rd
insn_action (store_to funct3 rs1 rs2 imm) =
    if leb funct3 2 then store funct3 alu_add (read rs1) (constant imm) rs2 else illegal
insn_action (misc_mem funct3) = nothing
insn_action (system funct3 addr rs1 rd) =
    if funct3 == 0 then environment_action addr else csr_action funct3 addr rs1 rd

abbrev pub operand_a : Bundle → AluASel → Operand
operand_a d opa_x0 = constant 0
operand_a d opa_rs1 = read d.rs1_addr
operand_a d opa_pc = counter

abbrev pub operand_b : Bundle → AluBSel → Operand
operand_b d opb_rs2 = read d.rs2_addr
operand_b d opb_imm = constant d.imm
operand_b d opb_uimm = constant d.imm

-- The register that is written, or x0.
abbrev pub target : Bundle → ℕ
target d = if d.rd_we then d.rd_addr else 0

-- What the control signals say.
unfoldable pub bundle_action : Bundle → Action
bundle_action d =
    let a = operand_a d d.alu_a_sel in
    let b = operand_b d d.alu_b_sel in
    if d.is_illegal
    then illegal
    else if d.is_nop
    then nothing
    else if d.is_ecall
    then ecall
    else if d.is_ebreak
    then ebreak
    else if d.is_mret
    then mret
    else if d.is_csr
    then csr d.csr_op d.csr_imm d.csr_addr d.rs1_addr (target d)
    else if d.is_jal
    then jump (target d) d.imm
    else if d.is_jalr
    then jump_register d.rs1_addr (target d) d.imm
    else if d.is_branch
    then branch d.branch_funct3 a b d.imm
    else if d.is_load
    then load d.lsu_funct3 d.alu_op a b (target d)
    else if d.is_store
    then store d.lsu_funct3 d.alu_op a b d.rs2_addr
    else compute d.alu_op a b (target d)

-- The bundle does what the instruction is, where the word stands for one.
abbrev pub Performs : Option Insn → Bundle → Type 0
Performs none d = Unit
Performs (some i) d = bundle_action d ≡ insn_action i
