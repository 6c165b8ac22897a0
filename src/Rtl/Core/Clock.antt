-- ===== src/Rtl/Core/Clock.antt =====
-- rtl/core/rv32i_core.sv: the next phase, the ports of the modules, and one clock edge.
use riscv_vibecoded.Rtl.Pkg.{Phase, ph_idle, ph_id, ph_ex, ph_mem, ph_wb}
use riscv_vibecoded.Rtl.Regfile
use riscv_vibecoded.Rtl.CsrFile
use riscv_vibecoded.Rtl.Fetch
use riscv_vibecoded.Rtl.Decoder.{decoder}
use riscv_vibecoded.Rtl.Decoder.Outputs.{Bundle}
use riscv_vibecoded.Rtl.Core.State.{Core, Response, in_phase}
use riscv_vibecoded.Rtl.Core.Wires.{
  accept, accepted_word, alu_result_comb, seq_pc, csr_write_en, csr_new_val, rd_wdata,
}
use riscv_vibecoded.Rtl.Core.Trap.{
  trap_pending, trap_mcause, trap_mtval, fetch_redirect, redirect_target,
}
use riscv_vibecoded.Prelude.{◌+◌, ◌%◌, ◌^◌, Bool, true, false, not, ◌==◌, ◌&&◌, ◌||◌, if◌then◌else◌}

-- phase_d, from the phase and the conditions of its cases.
abbrev pub next_phase : Phase → (accepts goes_to_mem answered : Bool) → Phase
next_phase ph_idle accepts goes_to_mem answered = if accepts then ph_id else ph_idle
next_phase ph_id accepts goes_to_mem answered = ph_ex
next_phase ph_ex accepts goes_to_mem answered = if goes_to_mem then ph_mem else ph_wb
next_phase ph_mem accepts goes_to_mem answered = if answered then ph_wb else ph_mem
next_phase ph_wb accepts goes_to_mem answered = ph_idle

abbrev pub is_memory : Bundle → Bool
is_memory d = d.is_load || d.is_store

unfoldable pub phase_d : Bundle → Response → Core → Phase
phase_d d r s = next_phase s.phase (accept s) (is_memory d && not (trap_pending d s)) r.rsp_valid

unfoldable pub fetch_start : Bundle → Response → Core → Bool
fetch_start d r s =
    in_phase ph_idle s && not s.word_pending
    || in_phase ph_id s && not d.is_load && not d.is_store
    || in_phase ph_mem s && r.rsp_valid

unfoldable pub fetch_ports : Bundle → Response → Core → Fetch.Ports
fetch_ports d r s = record {
  start = fetch_start d r s;
  start_pc = if in_phase ph_idle s then 0 else seq_pc d s;
  redirect = fetch_redirect d s;
  redirect_target = redirect_target d s;
  rsp_valid = r.rsp_valid;
  rsp_rdata = r.rsp_rdata;
}

unfoldable pub csr_we : Bundle → Core → Bool
csr_we d s = in_phase ph_wb s && csr_write_en d s && not s.trap_exe

unfoldable pub csr_ports : Bundle → Core → CsrFile.Ports
csr_ports d s = record {
  csr_addr = d.csr_addr;
  csr_we = csr_we d s;
  csr_wdata = csr_new_val d s;
  trap_enter = in_phase ph_wb s && s.trap_exe;
  trap_mepc = s.pc_exe;
  trap_mcause = s.trap_mcause;
  trap_mtval = s.trap_mtval;
  mret = in_phase ph_wb s && s.mret_exe;
}

unfoldable pub reg_we : Bundle → Core → Bool
reg_we d s = in_phase ph_wb s && d.rd_we && not (d.rd_addr == 0) && not s.trap_exe

unfoldable pub write_port : Bundle → Core → Regfile.WritePort
write_port d s = record { waddr = d.rd_addr; wdata = rd_wdata d s; we = reg_we d s }

unfoldable pub next_pending : Bundle → Response → Core → Bool
next_pending d r s =
    if fetch_redirect d s
    then false
    else if accept s
    then false
    else if Fetch.word_valid s.fetch r.rsp_valid
    then true
    else s.word_pending

-- The edge, with the bundle of the instruction in the pipeline.
unfoldable pub edge : Bundle → Response → Core → Core
edge d r s =
    let ex = in_phase ph_ex s in
    record {
      phase = phase_d d r s;
      pc_exe = if accept s then s.fetch.word_pc else s.pc_exe;
      insn_exe = if accept s then accepted_word s else s.insn_exe;
      rs1 = if in_phase ph_id s then Regfile.read s.regs d.rs1_addr else s.rs1;
      rs2 = if in_phase ph_id s then Regfile.read s.regs d.rs2_addr else s.rs2;
      alu_result = if ex then alu_result_comb d s else s.alu_result;
      mem_addr = if ex then alu_result_comb d s else s.mem_addr;
      mem_rdata = if in_phase ph_mem s && r.rsp_valid then r.rsp_rdata else s.mem_rdata;
      word_pending = next_pending d r s;
      order = if in_phase ph_wb s then (s.order + 1) % 2 ^ 64 else s.order;
      trap_exe = if ex then trap_pending d s else s.trap_exe;
      mret_exe = if ex then d.is_mret else s.mret_exe;
      trap_mcause = if ex then trap_mcause d s else s.trap_mcause;
      trap_mtval = if ex then trap_mtval d s else s.trap_mtval;
      regs = Regfile.clock (write_port d s) s.regs;
      csrs = CsrFile.clock (csr_ports d s) s.csrs;
      fetch = Fetch.clock (fetch_ports d r s) s.fetch;
    }

unfoldable pub clock : Response → Core → Core
clock r s = edge (decoder s.insn_exe) r s
