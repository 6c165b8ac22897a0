-- ===== src/Rtl/Core/State.antt =====
-- rtl/core/rv32i_core.sv: the registers of the core and of its modules, and what the memory answers.
use riscv_vibecoded.Rtl.Pkg.{Phase, ph_idle, ph_id, ph_ex, ph_mem, ph_wb}
use riscv_vibecoded.Rtl.Regfile
use riscv_vibecoded.Rtl.CsrFile
use riscv_vibecoded.Rtl.CsrFile.{Csrs}
use riscv_vibecoded.Rtl.Fetch
use riscv_vibecoded.Rtl.Fetch.{Fetch as FetchUnit}
use riscv_vibecoded.Prelude.{ℕ, Bool, false, ◌==◌}

pub record Core : Type 0 where
  pub phase : Phase
  pub pc_exe : ℕ
  pub insn_exe : ℕ
  pub rs1 : ℕ
  pub rs2 : ℕ
  pub alu_result : ℕ
  pub mem_addr : ℕ
  pub mem_rdata : ℕ
  pub word_pending : Bool
  pub order : ℕ
  pub trap_exe : Bool
  pub mret_exe : Bool
  pub trap_mcause : ℕ
  pub trap_mtval : ℕ
  pub regs : ℕ → ℕ
  pub csrs : Csrs
  pub fetch : FetchUnit

-- The inputs of a cycle: rsp_valid_i and rsp_rdata_i.
pub record Response : Type 0 where
  pub rsp_valid : Bool
  pub rsp_rdata : ℕ

abbrev pub reset : Core
reset = record {
  phase = ph_idle;
  pc_exe = 0;
  insn_exe = 0;
  rs1 = 0;
  rs2 = 0;
  alu_result = 0;
  mem_addr = 0;
  mem_rdata = 0;
  word_pending = false;
  order = 0;
  trap_exe = false;
  mret_exe = false;
  trap_mcause = 0;
  trap_mtval = 0;
  regs = Regfile.reset;
  csrs = CsrFile.reset;
  fetch = Fetch.reset;
}

abbrev pub phase_code : Phase → ℕ
phase_code ph_idle = 0
phase_code ph_id = 1
phase_code ph_ex = 2
phase_code ph_mem = 3
phase_code ph_wb = 4

-- phase_q == p
abbrev pub in_phase : Phase → Core → Bool
in_phase p s = phase_code s.phase == phase_code p
