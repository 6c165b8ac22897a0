-- ===== src/Rtl/Core/Retire.antt =====
-- rtl/core/rv32i_core.sv with a memory that answers in the cycle of the request, as its header
-- asks for: an instruction from the cycle that accepts it to the cycle after it retires.
pub mod Accept
pub mod WriteBack
pub mod Phases
pub mod Run
pub mod Cause
pub mod Traps
pub mod Returns
pub mod Access
pub mod Ram
pub mod Instruction
pub mod Reset
use riscv_vibecoded.Rtl.Pkg.{Phase, ph_idle, ph_id, ph_ex, ph_mem, ph_wb, f_idle, f_req}
use riscv_vibecoded.Rtl.Fetch
use riscv_vibecoded.Rtl.Lsu
use riscv_vibecoded.Rtl.Fetch.{requesting}
use riscv_vibecoded.Rtl.Regfile
use riscv_vibecoded.Rtl.Regfile.{WritePort}
use riscv_vibecoded.Rtl.CsrFile
use riscv_vibecoded.Rtl.CsrFile.{Csrs}
use riscv_vibecoded.Rtl.Decoder.{decoder}
use riscv_vibecoded.Rtl.Decoder.Outputs.{Bundle}
use riscv_vibecoded.Rtl.Decoder.Classes.{
  IsSound, decoder-IsSound, memory_only, memory_not_csr, load_only,
}
use riscv_vibecoded.Rtl.Core.Schedule.{memory_redirect}
use riscv_vibecoded.Rtl.Core.State.{Core, Response, in_phase}
use riscv_vibecoded.Rtl.Core.Wires.{
  accepted_word, alu_result_comb, seq_pc, branch_taken, branch_target, rd_wdata, lsu, csr_write_en,
  csr_update, csr_operand,
}
use riscv_vibecoded.Rtl.Core.Trap.{
  fetch_redirect, redirect_target, trap_pending, trap_vector, trap_mcause, trap_mtval,
}
use riscv_vibecoded.Rtl.Core.Clock.{clock, edge, is_memory, write_port, reg_we}
use riscv_vibecoded.Rtl.Core.Outputs.{request}
use riscv_vibecoded.Rtl.Core.Stages.{
  tick, idle_edge, id_edge, ex_results, ex_redirect, ex_sequential, ex_memory, mem_edge,
  wb_requested, wb_pending,
}
use riscv_vibecoded.Isa.Fields.{slice}
use riscv_vibecoded.Prelude.{
  ℕ, zero, suc, ◌+◌, ◌*◌, ◌%◌, ◌^◌, Bool, true, false, not, ◌==◌, ◌&&◌, ◌||◌, if◌then◌else◌, ◌≡◌,
  refl, arith, ◌∙◌, ap, sym, inl, inr, Bool-cases,
}

-- rsp_valid_i = req_valid_o, with the word at the address.
abbrev pub answer : (ℕ → ℕ) → Core → Response
answer memory s = record {
  rsp_valid = (request s).req_valid;
  rsp_rdata = memory (request s).req_addr;
}

unfoldable pub cycle : (ℕ → ℕ) → Core → Core
cycle memory s = clock (answer memory s) s

unfoldable pub cycles : (ℕ → ℕ) → ℕ → Core → Core
cycles memory zero s = s
cycles memory (suc n) s = cycles memory n (cycle memory s)

-- A word waits to be accepted.
abbrev pub ready : Core → Bool
ready s = in_phase ph_idle s && s.word_pending && not (requesting s.fetch.fetch_phase)

-- PH_EX of the word that waits, with its bundle d.
unfoldable pub operands : Bundle → Core → Core
operands d s =
    let x = record s {
      phase = ph_ex;
      pc_exe = s.fetch.word_pc;
      insn_exe = accepted_word s;
      word_pending = false;
      rs1 = Regfile.read s.regs d.rs1_addr;
      rs2 = Regfile.read s.regs d.rs2_addr;
      csrs = tick (tick s.csrs);
    } in
    record x {
      fetch =
          if is_memory d
          then s.fetch
          else record s.fetch { fetch_phase = f_req; fetch_pc = seq_pc d x };
    }

-- The address of the next instruction, from the state in PH_EX.
unfoldable pub next_pc : Bundle → Core → ℕ
next_pc d x =
    if trap_pending d x
    then trap_vector x
    else if d.is_mret
    then x.csrs.mepc
    else if branch_taken d x || d.is_jal || d.is_jalr
    then branch_target d x
    else seq_pc d x

-- The word at the address of a load or a store.
abbrev pub accessed : (ℕ → ℕ) → Bundle → Core → ℕ
accessed memory d x = memory (Lsu.addr_o (alu_result_comb d x))

-- The register write of the instruction, from the state in PH_EX.
unfoldable pub register_value : (ℕ → ℕ) → Bundle → Core → ℕ
register_value memory d x =
    if d.is_csr
    then CsrFile.csr_rdata d.csr_addr (tick x.csrs)
    else if d.is_load
    then (Lsu.load_lanes (alu_result_comb d x) d.lsu_funct3 (accessed memory d x)).rd_data
    else if d.is_jal || d.is_jalr
    then seq_pc d x
    else alu_result_comb d x

unfoldable pub register_write : (ℕ → ℕ) → Bundle → Core → WritePort
register_write memory d x = record {
  waddr = d.rd_addr;
  wdata = register_value memory d x;
  we = d.rd_we && not (d.rd_addr == 0) && not (trap_pending d x);
}

-- The CSRs when the instruction is in PH_WB.
abbrev pub waited : Bundle → Core → Csrs
waited d x = if is_memory d && not (trap_pending d x) then tick (tick x.csrs) else tick x.csrs

-- The ports of the CSR file in that cycle, from the state in PH_EX: the write of a CSR instruction, a
-- trap, or a return from one.
unfoldable pub csr_retire : Bundle → Core → CsrFile.Ports
csr_retire d x = record {
  csr_addr = d.csr_addr;
  csr_we = csr_write_en d x && not (trap_pending d x);
  csr_wdata = csr_update d.csr_op (csr_operand d x) (CsrFile.csr_rdata d.csr_addr (waited d x));
  trap_enter = trap_pending d x;
  trap_mepc = x.pc_exe;
  trap_mcause = trap_mcause d x;
  trap_mtval = trap_mtval d x;
  mret = d.is_mret;
}

-- t is x retired: the next word waits, and the register file and the CSRs have the writes of x.
pub record Retired (memory : ℕ → ℕ) (d : Bundle) (x t : Core) : Type 0 where
  pub waits : ready t ≡ true
  pub counted : t.order ≡ (x.order + 1) % 2 ^ 64
  pub next : t.fetch.word_pc ≡ next_pc d x
  pub fetched : t.fetch.word ≡ memory (slice 31 2 (next_pc d x) * 2 ^ 2)
  pub csrs : t.csrs ≡ CsrFile.clock (csr_retire d x) (waited d x)
  pub written : (i : ℕ) → t.regs i ≡ Regfile.clock (register_write memory d x) x.regs i
