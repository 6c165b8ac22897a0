-- ===== src/Rtl/Core/Wires.antt =====
-- rtl/core/rv32i_core.sv: the combinational wires of the instruction in the pipeline; d is its
-- control bundle.
use riscv_vibecoded.Rtl.Pkg.{
  AluASel, AluBSel, opa_x0, opa_rs1, opa_pc, opb_rs2, opb_imm, opb_uimm, ph_idle, CsrOp, csr_rw,
  csr_rs, csr_rc, complement,
}
use riscv_vibecoded.Rtl.Alu
use riscv_vibecoded.Rtl.Lsu
use riscv_vibecoded.Rtl.Lsu.{Lanes}
use riscv_vibecoded.Rtl.CsrFile
use riscv_vibecoded.Rtl.Decoder.Outputs.{Bundle}
use riscv_vibecoded.Rtl.Core.State.{Core, in_phase}
use riscv_vibecoded.Isa.Fields.{slice, bit}
use riscv_vibecoded.Prelude.{
  ℕ, ◌+◌, ◌%◌, ◌^◌, bit_and, bit_or, Bool, true, false, not, ◌==◌, ◌&&◌, ◌||◌, if◌then◌else◌,
}

-- The halfword that the address selects, and the word that goes into the pipeline.
unfoldable pub fetch_word_sel : Core → ℕ
fetch_word_sel s =
    if bit 1 s.fetch.word_pc == 1 then slice 31 16 s.fetch.word else slice 15 0 s.fetch.word

unfoldable pub accepted_word : Core → ℕ
accepted_word s =
    if not (bit 1 s.fetch.word_pc == 1) && slice 1 0 (fetch_word_sel s) == 0b11
    then s.fetch.word
    else fetch_word_sel s

unfoldable pub accept : Core → Bool
accept s = in_phase ph_idle s && s.word_pending

unfoldable pub seq_pc : Bundle → Core → ℕ
seq_pc d s = (s.pc_exe + (if d.is_c then 2 else 4)) % 2 ^ 32

abbrev pub select_a : AluASel → Core → ℕ
select_a opa_x0 s = 0
select_a opa_rs1 s = s.rs1
select_a opa_pc s = s.pc_exe

abbrev pub select_b : AluBSel → Bundle → Core → ℕ
select_b opb_rs2 d s = s.rs2
select_b opb_imm d s = d.imm
select_b opb_uimm d s = d.imm

unfoldable pub alu_a : Bundle → Core → ℕ
alu_a d s = select_a d.alu_a_sel s

unfoldable pub alu_b : Bundle → Core → ℕ
alu_b d s = select_b d.alu_b_sel d s

unfoldable pub alu_result_comb : Bundle → Core → ℕ
alu_result_comb d s = Alu.result d.alu_op (alu_a d s) (alu_b d s)

unfoldable pub branch_taken : Bundle → Core → Bool
branch_taken d s = d.is_branch && Alu.branch_taken d.branch_funct3 (alu_a d s) (alu_b d s)

unfoldable pub branch_target : Bundle → Core → ℕ
branch_target d s =
    if d.is_jalr
    then bit_and ((s.rs1 + d.imm) % 2 ^ 32) (complement 1)
    else (s.pc_exe + d.imm) % 2 ^ 32

unfoldable pub lsu : Bundle → Core → Lanes
lsu d s = Lsu.lanes s.mem_addr d.lsu_funct3 d.is_store s.rs2 s.mem_rdata

unfoldable pub csr_operand : Bundle → Core → ℕ
csr_operand d s = if d.csr_imm then slice 19 15 s.insn_exe else s.rs1

abbrev pub is_rw : CsrOp → Bool
is_rw csr_rw = true
is_rw csr_rs = false
is_rw csr_rc = false

unfoldable pub csr_write_en : Bundle → Core → Bool
csr_write_en d s = d.is_csr && (is_rw d.csr_op || not (csr_operand d s == 0))

abbrev pub csr_update : CsrOp → ℕ → ℕ → ℕ
csr_update csr_rw operand rdata = operand
csr_update csr_rs operand rdata = bit_or rdata operand
csr_update csr_rc operand rdata = bit_and rdata (complement operand)

unfoldable pub csr_new_val : Bundle → Core → ℕ
csr_new_val d s = csr_update d.csr_op (csr_operand d s) (CsrFile.csr_rdata d.csr_addr s.csrs)

-- rd_wdata_comb
unfoldable pub rd_wdata : Bundle → Core → ℕ
rd_wdata d s =
    if d.is_csr
    then CsrFile.csr_rdata d.csr_addr s.csrs
    else if d.is_load
    then (lsu d s).rd_data
    else if d.is_jal || d.is_jalr
    then seq_pc d s
    else s.alu_result
