-- ===== src/Rtl/Core/Widths.antt =====
-- rtl/core/rv32i_core.sv: every register within its declared width.
pub mod Wires
pub mod Edge
use riscv_vibecoded.Emulator.Bounds.Words.{bit_and-lt, bit_or-lt}
use riscv_vibecoded.Isa.Fields.{slice, bit, repeat_bit}
use riscv_vibecoded.Rtl.Pkg.{
  AluASel, AluBSel, opa_x0, opa_rs1, opa_pc, opb_rs2, opb_imm, opb_uimm, CsrOp, csr_rw, csr_rs,
  csr_rc, complement, ph_idle, ph_id, ph_ex, ph_mem, ph_wb,
}
use riscv_vibecoded.Rtl.Alu.Bounds.{result-lt}
use riscv_vibecoded.Rtl.Lsu
use riscv_vibecoded.Rtl.Regfile
use riscv_vibecoded.Rtl.CsrFile
use riscv_vibecoded.Rtl.CsrFile.{Csrs, csr_rdata}
use riscv_vibecoded.Rtl.CsrFile.Traps.{IsWellFormed, AreWords, clock-IsWellFormed}
use riscv_vibecoded.Rtl.Fetch
use riscv_vibecoded.Rtl.Fetch.{Fetch as FetchUnit}
use riscv_vibecoded.Rtl.Decoder.{decoder}
use riscv_vibecoded.Rtl.Decoder.Immediates.{decoder-imm-lt}
use riscv_vibecoded.Rtl.Decoder.Outputs.{Bundle}
use riscv_vibecoded.Rtl.Core.State.{Core, Response, reset, in_phase}
use riscv_vibecoded.Rtl.Core.Wires.{
  accepted_word, fetch_word_sel, accept, seq_pc, select_a, select_b, alu_a, alu_b, alu_result_comb,
  branch_target, lsu, csr_operand, csr_update, csr_new_val, rd_wdata,
}
use riscv_vibecoded.Rtl.Core.Trap.{
  trap_vector, trap_mem_mis, trap_illegal_csr, trap_pending, trap_mcause, trap_mtval,
  redirect_target,
}
use riscv_vibecoded.Rtl.Core.Clock.{clock, edge, fetch_ports, csr_ports, write_port}
use riscv_vibecoded.Prelude.{
  ℕ, ◌+◌, ◌*◌, ◌%◌, ◌^◌, ◌<◌, Bool, true, false, ◌==◌, ◌||◌, ◌&&◌, if◌then◌else◌, ◌≡◌, refl, arith,
  List, [], ◌∷◌, All, inl, inr, Bool-cases,
}

abbrev pub IsWord : ℕ → Type 0
IsWord n = n < 2 ^ 32

pub record FetchFits (f : FetchUnit) : Type 0 where
  pub fetch_pc : IsWord f.fetch_pc
  pub word : IsWord f.word
  pub word_pc : IsWord f.word_pc

-- The registers of the core and of its modules are as wide as they are declared.
pub record Fits (s : Core) : Type 0 where
  pub pc_exe : IsWord s.pc_exe
  pub insn_exe : IsWord s.insn_exe
  pub rs1 : IsWord s.rs1
  pub rs2 : IsWord s.rs2
  pub alu_result : IsWord s.alu_result
  pub mem_addr : IsWord s.mem_addr
  pub mem_rdata : IsWord s.mem_rdata
  pub order : s.order < 2 ^ 64
  pub trap_mcause : IsWord s.trap_mcause
  pub trap_mtval : IsWord s.trap_mtval
  pub regs : (r : ℕ) → IsWord (s.regs r)
  pub csrs : IsWellFormed s.csrs
  pub fetch : FetchFits s.fetch
