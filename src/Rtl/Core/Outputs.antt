-- ===== src/Rtl/Core/Outputs.antt =====
-- rtl/core/rv32i_core.sv: the request to the memory, and the retirement channel.
use riscv_vibecoded.Rtl.Pkg.{ph_mem, ph_wb}
use riscv_vibecoded.Rtl.Fetch
use riscv_vibecoded.Rtl.Lsu
use riscv_vibecoded.Rtl.Decoder.{decoder}
use riscv_vibecoded.Rtl.Core.State.{Core, in_phase}
use riscv_vibecoded.Rtl.Core.Wires.{lsu, rd_wdata, branch_taken, branch_target, seq_pc}
use riscv_vibecoded.Rtl.Core.Trap.{trap_vector}
use riscv_vibecoded.Prelude.{ℕ, Bool, true, not, ◌==◌, ◌&&◌, ◌||◌, if◌then◌else◌}

pub record Request : Type 0 where
  pub req_valid : Bool
  pub req_we : Bool
  pub req_addr : ℕ
  pub req_be : ℕ
  pub req_wdata : ℕ

unfoldable pub request : Core → Request
request s =
    let d = decoder s.insn_exe in
    let mem = in_phase ph_mem s in
    record {
      req_valid = if mem then true else Fetch.req_valid s.fetch;
      req_we = mem && d.is_store;
      req_addr = if mem then Lsu.addr_o s.mem_addr else Fetch.req_addr s.fetch;
      req_be = if mem then (lsu d s).be else 0xF;
      req_wdata = if mem then (lsu d s).wdata else 0;
    }

-- The retirement channel without its constants and its CSR part.
pub record Rvfi : Type 0 where
  pub valid : Bool
  pub order : ℕ
  pub insn : ℕ
  pub trap : Bool
  pub rs1_addr : ℕ
  pub rs2_addr : ℕ
  pub rs1_rdata : ℕ
  pub rs2_rdata : ℕ
  pub rd_addr : ℕ
  pub rd_wdata : ℕ
  pub pc_rdata : ℕ
  pub pc_wdata : ℕ
  pub mem_addr : ℕ
  pub mem_rmask : ℕ
  pub mem_wmask : ℕ
  pub mem_rdata : ℕ
  pub mem_wdata : ℕ

unfoldable pub rvfi : Core → Rvfi
rvfi s =
    let d = decoder s.insn_exe in
    let writes = d.rd_we && not s.trap_exe in
    let wb = in_phase ph_wb s in
    let loads = wb && d.is_load && not s.trap_exe in
    let stores = wb && d.is_store && not s.trap_exe in
    record {
      valid = wb;
      order = s.order;
      insn = s.insn_exe;
      trap = s.trap_exe;
      rs1_addr = d.rs1_addr;
      rs2_addr = d.rs2_addr;
      rs1_rdata = s.rs1;
      rs2_rdata = s.rs2;
      rd_addr = if writes then d.rd_addr else 0;
      rd_wdata = if writes then (if d.rd_addr == 0 then 0 else rd_wdata d s) else 0;
      pc_rdata = s.pc_exe;
      pc_wdata =
          if s.trap_exe
          then trap_vector s
          else if s.mret_exe
          then s.csrs.mepc
          else if branch_taken d s || d.is_jal || d.is_jalr
          then branch_target d s
          else seq_pc d s;
      mem_addr = if wb && (d.is_load || d.is_store) then Lsu.addr_o s.mem_addr else 0;
      mem_rmask = if loads then (lsu d s).be else 0;
      mem_wmask = if stores then (lsu d s).be else 0;
      mem_rdata = if loads then s.mem_rdata else 0;
      mem_wdata = if stores then (lsu d s).wdata else 0;
    }
