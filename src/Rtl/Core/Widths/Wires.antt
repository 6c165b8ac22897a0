-- ===== src/Rtl/Core/Widths/Wires.antt =====
-- rtl/core/rv32i_core.sv: the wires of an instruction are words where the registers and the immediate are.
use riscv_vibecoded.Rtl.Core.Widths.{IsWord, Fits}
use riscv_vibecoded.Emulator.Bounds.Words.{bit_and-lt, bit_or-lt}
use riscv_vibecoded.Isa.Fields.{slice, bit}
use riscv_vibecoded.Rtl.Pkg.{
  AluASel, AluBSel, opa_x0, opa_rs1, opa_pc, opb_rs2, opb_imm, opb_uimm, CsrOp, csr_rw, csr_rs,
  csr_rc, complement,
}
use riscv_vibecoded.Rtl.Alu.Bounds.{result-lt}
use riscv_vibecoded.Rtl.Lsu
use riscv_vibecoded.Rtl.CsrFile.{Csrs, csr_rdata}
use riscv_vibecoded.Rtl.CsrFile.Traps.{IsWellFormed, AreWords}
use riscv_vibecoded.Rtl.Decoder.Outputs.{Bundle}
use riscv_vibecoded.Rtl.Core.State.{Core}
use riscv_vibecoded.Rtl.Core.Wires.{
  accepted_word, fetch_word_sel, seq_pc, select_a, select_b, alu_a, alu_b, alu_result_comb,
  branch_target, lsu, csr_operand, csr_update, csr_new_val, rd_wdata,
}
use riscv_vibecoded.Rtl.Core.Trap.{
  trap_mem_mis, trap_illegal_csr, trap_pending, trap_mcause, trap_mtval, redirect_target,
}
use riscv_vibecoded.Rtl.Core.Clock.{csr_ports}
use riscv_vibecoded.Prelude.{
  ℕ, ◌+◌, ◌%◌, ◌^◌, Bool, true, false, ◌==◌, ◌||◌, if◌then◌else◌, arith, inl, inr, Bool-cases,
}

load-IsWord :
    (addr funct3 rdata : ℕ) → IsWord rdata → IsWord (Lsu.load_lanes addr funct3 rdata).rd_data
unfolding Lsu.load_lanes
load-IsWord addr funct3 rdata h = ground arith

store-IsWord : (addr funct3 wdata : ℕ) → IsWord (Lsu.store_lanes addr funct3 wdata).rd_data
unfolding Lsu.store_lanes
store-IsWord addr funct3 wdata = ground arith

csr_rdata-IsWord : (a : ℕ) (c : Csrs) → IsWellFormed c → IsWord (csr_rdata a c)
unfolding csr_rdata
csr_rdata-IsWord a c h =
    let status : IsWord c.mstatus = omega (arith, h.fields) in
    ground (arith, status, h.mtvec_word, h.mepc_word, h.mcause_word, h.mtval_word)

csr_update-IsWord :
    (o : CsrOp) (operand rdata : ℕ)
    → IsWord operand
    → IsWord rdata
    → IsWord (csr_update o operand rdata)
csr_update-IsWord csr_rw operand rdata h k = h
csr_update-IsWord csr_rs operand rdata h k = bit_or-lt 32 rdata operand k h
csr_update-IsWord csr_rc operand rdata h k =
    bit_and-lt 32 rdata (complement operand) k (omega arith)

-- One of two words.
pub either : (b : Bool) (x y : ℕ) → IsWord x → IsWord y → IsWord (if b then x else y)
either true x y h k = h
either false x y h k = k

pub accepted-IsWord : (s : Core) → IsWord s.fetch.word → IsWord (accepted_word s)
unfolding accepted_word fetch_word_sel
accepted-IsWord s h =
    let half =
      either (bit 1 s.fetch.word_pc == 1) (slice 31 16 s.fetch.word) (slice 15 0 s.fetch.word)
        (omega arith) (omega arith) in
    either _ _ _ h half

module _ (d : Bundle) (s : Core) (h : Fits s) (imm : IsWord d.imm) where
  select_a-IsWord : (sel : AluASel) → IsWord (select_a sel s)
  select_a-IsWord opa_x0 = omega arith
  select_a-IsWord opa_rs1 = h.rs1
  select_a-IsWord opa_pc = h.pc_exe

  select_b-IsWord : (sel : AluBSel) → IsWord (select_b sel d s)
  select_b-IsWord opb_rs2 = h.rs2
  select_b-IsWord opb_imm = imm
  select_b-IsWord opb_uimm = imm

  pub alu-IsWord : IsWord (alu_result_comb d s)
  unfolding alu_result_comb alu_a alu_b
  alu-IsWord =
      result-lt d.alu_op (select_a d.alu_a_sel s) (select_b d.alu_b_sel d s)
        (select_a-IsWord d.alu_a_sel) (select_b-IsWord d.alu_b_sel)

  pub seq-IsWord : IsWord (seq_pc d s)
  unfolding seq_pc
  seq-IsWord = omega arith

  branch-IsWord : IsWord (branch_target d s)
  unfolding branch_target
  branch-IsWord =
      either d.is_jalr _ _
        (bit_and-lt 32 ((s.rs1 + d.imm) % 2 ^ 32) (complement 1) (omega arith) (omega arith))
        (omega arith)

  pub redirect-IsWord : IsWord (redirect_target d s)
  unfolding redirect_target
  redirect-IsWord =
      either (trap_pending d s) _ _
        (bit_and-lt 32 s.csrs.mtvec (complement 3) h.csrs.mtvec_word (omega arith))
        (either d.is_mret _ _ h.csrs.mepc_word branch-IsWord)

  operand-IsWord : IsWord (csr_operand d s)
  unfolding csr_operand
  operand-IsWord = either d.csr_imm _ _ (omega arith) h.rs1

  pub csr_ports-AreWords : AreWords (csr_ports d s)
  unfolding csr_ports csr_new_val
  csr_ports-AreWords = record {
    wdata =
        csr_update-IsWord d.csr_op (csr_operand d s) (csr_rdata d.csr_addr s.csrs) operand-IsWord
          (csr_rdata-IsWord d.csr_addr s.csrs h.csrs);
    trap_mepc = h.pc_exe;
    trap_mcause = h.trap_mcause;
    trap_mtval = h.trap_mtval;
  }

  lsu-IsWord : IsWord (lsu d s).rd_data
  unfolding lsu Lsu.lanes
  lsu-IsWord = elim (Bool-cases d.is_store) [
    | inl e ↦ rw e (store-IsWord s.mem_addr d.lsu_funct3 s.rs2)
    | inr e ↦ rw e (load-IsWord s.mem_addr d.lsu_funct3 s.mem_rdata h.mem_rdata)
  ]

  pub wdata-IsWord : IsWord (rd_wdata d s)
  unfolding rd_wdata
  wdata-IsWord =
      either d.is_csr _ _ (csr_rdata-IsWord d.csr_addr s.csrs h.csrs) (
        either d.is_load _ _ lsu-IsWord
          (either (d.is_jal || d.is_jalr) _ _ seq-IsWord h.alu_result))

  pub mcause-IsWord : IsWord (trap_mcause d s)
  unfolding trap_mcause
  mcause-IsWord = either d.is_ecall _ _ (omega arith) (
      either (trap_mem_mis d s) _ _ (either d.is_load 4 6 (omega arith) (omega arith)) (
        either d.is_ebreak _ _ (omega arith)
          (either (d.is_illegal || trap_illegal_csr d) 2 0 (omega arith) (omega arith))))

  pub mtval-IsWord : IsWord (trap_mtval d s)
  unfolding trap_mtval
  mtval-IsWord = either (trap_mem_mis d s) _ _ alu-IsWord (omega arith)
