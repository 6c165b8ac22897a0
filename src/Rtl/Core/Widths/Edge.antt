-- ===== src/Rtl/Core/Widths/Edge.antt =====
-- rtl/core/rv32i_core.sv: an edge keeps every register within its declared width, so every run does
-- in which the memory answers with words.
use riscv_vibecoded.Rtl.Core.Widths.{IsWord, FetchFits, Fits}
use riscv_vibecoded.Rtl.Core.Widths.Wires.{
  either, accepted-IsWord, alu-IsWord, seq-IsWord, redirect-IsWord, csr_ports-AreWords,
  wdata-IsWord, mcause-IsWord, mtval-IsWord,
}
use riscv_vibecoded.Rtl.Pkg.{ph_idle, ph_id, ph_ex, ph_mem, ph_wb}
use riscv_vibecoded.Rtl.Regfile
use riscv_vibecoded.Rtl.CsrFile.Traps.{clock-IsWellFormed}
use riscv_vibecoded.Rtl.Fetch
use riscv_vibecoded.Rtl.Fetch.{Fetch as FetchUnit}
use riscv_vibecoded.Rtl.Decoder.{decoder}
use riscv_vibecoded.Rtl.Decoder.Immediates.{decoder-imm-lt}
use riscv_vibecoded.Rtl.Decoder.Outputs.{Bundle}
use riscv_vibecoded.Rtl.Core.State.{Core, Response, reset, in_phase}
use riscv_vibecoded.Rtl.Core.Wires.{accept, seq_pc}
use riscv_vibecoded.Rtl.Core.Clock.{clock, edge, fetch_ports, csr_ports, write_port}
use riscv_vibecoded.Prelude.{
  ℕ, ◌+◌, ◌%◌, ◌^◌, ◌<◌, Bool, true, false, ◌==◌, ◌&&◌, if◌then◌else◌, refl, arith, List, [], ◌∷◌,
  All,
}

fetch-Fits :
    (p : Fetch.Ports) (f : FetchUnit)
    → IsWord p.start_pc
    → IsWord p.redirect_target
    → IsWord p.rsp_rdata
    → FetchFits f
    → FetchFits (Fetch.clock p f)
unfolding Fetch.clock Fetch.capture
fetch-Fits p f start redirect rdata h = record {
  fetch_pc = ground (arith, h.fetch_pc);
  word = ground (arith, h.word);
  word_pc = ground (arith, h.fetch_pc, h.word_pc);
}

counted : (b : Bool) (n : ℕ) → n < 2 ^ 64 → (if b then (n + 1) % 2 ^ 64 else n) < 2 ^ 64
counted true n h = omega arith
counted false n h = h

module _ (d : Bundle) (s : Core) (h : Fits s) (imm : IsWord d.imm) where
  fetch_ports-Fits :
      (r : Response) → IsWord r.rsp_rdata → FetchFits (Fetch.clock (fetch_ports d r s) s.fetch)
  unfolding fetch_ports
  fetch_ports-Fits r word =
      fetch-Fits (fetch_ports d r s) s.fetch
        (either (in_phase ph_idle s) 0 (seq_pc d s) (omega arith) (seq-IsWord d s h imm))
        (redirect-IsWord d s h imm) word h.fetch

  write-IsWord : (i : ℕ) → IsWord (Regfile.clock (write_port d s) s.regs i)
  unfolding Regfile.clock write_port
  write-IsWord i = either _ _ _ (wdata-IsWord d s h imm) (h.regs i)

  read-IsWord : (i : ℕ) → IsWord (Regfile.read s.regs i)
  unfolding Regfile.read
  read-IsWord i = either (i == 0) 0 (s.regs i) (omega arith) (h.regs i)

  edge-Fits : (r : Response) → IsWord r.rsp_rdata → Fits (edge d r s)
  unfolding edge
  edge-Fits r word = record {
    pc_exe = either (accept s) _ _ h.fetch.word_pc h.pc_exe;
    insn_exe = either (accept s) _ _ (accepted-IsWord s h.fetch.word) h.insn_exe;
    rs1 = either (in_phase ph_id s) _ _ (read-IsWord d.rs1_addr) h.rs1;
    rs2 = either (in_phase ph_id s) _ _ (read-IsWord d.rs2_addr) h.rs2;
    alu_result = either (in_phase ph_ex s) _ _ (alu-IsWord d s h imm) h.alu_result;
    mem_addr = either (in_phase ph_ex s) _ _ (alu-IsWord d s h imm) h.mem_addr;
    mem_rdata = either (in_phase ph_mem s && r.rsp_valid) _ _ word h.mem_rdata;
    order = counted (in_phase ph_wb s) s.order h.order;
    trap_mcause = either (in_phase ph_ex s) _ _ (mcause-IsWord d s h imm) h.trap_mcause;
    trap_mtval = either (in_phase ph_ex s) _ _ (mtval-IsWord d s h imm) h.trap_mtval;
    regs = write-IsWord;
    csrs = clock-IsWellFormed (csr_ports d s) s.csrs (csr_ports-AreWords d s h imm) h.csrs;
    fetch = fetch_ports-Fits r word;
  }

pub reset-Fits : Fits reset
reset-Fits = record {
  pc_exe = omega arith;
  insn_exe = omega arith;
  rs1 = omega arith;
  rs2 = omega arith;
  alu_result = omega arith;
  mem_addr = omega arith;
  mem_rdata = omega arith;
  order = omega arith;
  trap_mcause = omega arith;
  trap_mtval = omega arith;
  regs = λ r. omega arith;
  csrs = record {
    fields = refl;
    mtvec_word = omega arith;
    mepc_word = omega arith;
    mcause_word = omega arith;
    mtval_word = omega arith;
    mcycle_long = omega arith;
  };
  fetch = record { fetch_pc = omega arith; word = omega arith; word_pc = omega arith };
}

-- The state after one edge for each response, the last edge's first, from a reset.
pub responses : List Response → Core
responses [] = reset
responses (r ∷ rs) = clock r (responses rs)

-- After any number of edges from a reset, with any answers of the memory that are words, at any time,
-- each register of the core, the register file, the CSR file and the fetch unit is within its declared
-- width, and mstatus has no bits but MIE, MPIE and MPP.
pub responses-Fits :
    (rs : List Response) → All (λ (r : Response). IsWord r.rsp_rdata) rs → Fits (responses rs)
unfolding responses clock
responses-Fits [] words = reset-Fits
responses-Fits (r ∷ rs) words =
    let s = responses rs in
    edge-Fits (decoder s.insn_exe) s (responses-Fits rs words.1) (decoder-imm-lt s.insn_exe) r
      words.0
