-- ===== src/Rtl/Core/Stages.antt =====
-- rtl/core/rv32i_core.sv: what one edge changes in each phase, and all that it changes.
use riscv_vibecoded.Rtl.Pkg.{ph_idle, ph_id, ph_ex, ph_mem, ph_wb, f_idle, f_req}
use riscv_vibecoded.Rtl.Fetch
use riscv_vibecoded.Rtl.Fetch.Requests
use riscv_vibecoded.Rtl.Regfile
use riscv_vibecoded.Rtl.CsrFile
use riscv_vibecoded.Rtl.CsrFile.{Csrs}
use riscv_vibecoded.Rtl.Decoder.Outputs.{Bundle}
use riscv_vibecoded.Rtl.Core.State.{Core, Response}
use riscv_vibecoded.Rtl.Core.Wires.{accept, accepted_word, alu_result_comb, seq_pc}
use riscv_vibecoded.Rtl.Core.Trap.{
  fetch_redirect, redirect_target, trap_pending, trap_mcause, trap_mtval,
}
use riscv_vibecoded.Rtl.Core.Clock.{
  edge, is_memory, phase_d, fetch_start, fetch_ports, next_pending, csr_ports, csr_we, write_port,
  reg_we,
}
use riscv_vibecoded.Prelude.{
  ◌+◌, ◌%◌, ◌^◌, Bool, true, false, not, ◌&&◌, if◌then◌else◌, ◌≡◌, refl, arith, ◌∙◌, inl, inr,
  Bool-cases,
}

-- A cycle of the counter.
abbrev pub tick : Csrs → Csrs
tick c = record c { mcycle = (c.mcycle + 1) % 2 ^ 64 }

pub idle_edge :
    (d : Bundle) (r : Response) (s : Core)
    → s.phase ≡ ph_idle
    → s.word_pending ≡ true
    → s.fetch.fetch_phase ≡ f_idle
    → edge d r s ≡ record s {
      phase = ph_id;
      pc_exe = s.fetch.word_pc;
      insn_exe = accepted_word s;
      word_pending = false;
      csrs = tick s.csrs;
    }
unfolding edge phase_d accept next_pending fetch_redirect Fetch.word_valid Fetch.clock Fetch.capture
    fetch_ports fetch_start csr_ports csr_we write_port reg_we Regfile.clock CsrFile.clock
idle_edge d r s h p q = rw (h, p, q) refl

pub id_edge :
    (d : Bundle) (r : Response) (s : Core)
    → s.phase ≡ ph_id
    → s.word_pending ≡ false
    → s.fetch.fetch_phase ≡ f_idle
    → edge d r s ≡ record s {
      phase = ph_ex;
      rs1 = Regfile.read s.regs d.rs1_addr;
      rs2 = Regfile.read s.regs d.rs2_addr;
      csrs = tick s.csrs;
      fetch =
          if is_memory d
          then s.fetch
          else record s.fetch { fetch_phase = f_req; fetch_pc = seq_pc d s };
    }
unfolding edge phase_d accept next_pending fetch_redirect Fetch.word_valid Fetch.clock Fetch.capture
    fetch_ports fetch_start csr_ports csr_we write_port reg_we Regfile.clock CsrFile.clock
id_edge d r s h p q = elim (Bool-cases (is_memory d)) [
  | inl m ↦ rw (h, starts m, m, p, q) refl
  | inr m ↦ rw (h, starts m, m, p, q) refl
]
  where
    starts : {b : Bool} → is_memory d ≡ b → (not d.is_load && not d.is_store) ≡ not b
    starts m = ground arith

-- PH_EX: the results, and where the word after this one comes from.
unfoldable pub ex_results : Bundle → Core → Core
ex_results d s = record s {
  alu_result = alu_result_comb d s;
  mem_addr = alu_result_comb d s;
  trap_exe = trap_pending d s;
  mret_exe = d.is_mret;
  trap_mcause = trap_mcause d s;
  trap_mtval = trap_mtval d s;
  csrs = tick s.csrs;
}

-- A fetch that an instruction in PH_EX redirects.

ports_redirect :
    (d : Bundle) (r : Response) (s : Core) → (fetch_ports d r s).redirect ≡ fetch_redirect d s
unfolding fetch_ports
ports_redirect d r s = refl

ports_target :
    (d : Bundle) (r : Response) (s : Core)
    → (fetch_ports d r s).redirect_target ≡ redirect_target d s
unfolding fetch_ports
ports_target d r s = refl

pub ex_redirect :
    (d : Bundle) (r : Response) (s : Core)
    → s.phase ≡ ph_ex
    → fetch_redirect d s ≡ true
    → (is_memory d && not (trap_pending d s)) ≡ false
    → edge d r s ≡ record (ex_results d s) {
      phase = ph_wb;
      word_pending = false;
      fetch = record s.fetch { fetch_phase = f_req; fetch_pc = redirect_target d s };
    }
unfolding edge ex_results phase_d accept next_pending Fetch.word_valid csr_ports csr_we write_port
    reg_we Regfile.clock CsrFile.clock
ex_redirect d r s h red m =
    rw
      (
        Requests.redirects (fetch_ports d r s) s.fetch (ports_redirect d r s ∙ red),
        ports_target d r s,
        red,
        m,
        h,
      )
      refl

-- The word that the fetch unit requests arrives.
pub ex_sequential :
    (d : Bundle) (r : Response) (s : Core)
    → s.phase ≡ ph_ex
    → fetch_redirect d s ≡ false
    → is_memory d ≡ false
    → s.fetch.fetch_phase ≡ f_req
    → r.rsp_valid ≡ true
    → edge d r s ≡ record (ex_results d s) {
      phase = ph_wb;
      word_pending = true;
      fetch = record s.fetch {
        fetch_phase = f_idle;
        word = r.rsp_rdata;
        word_pc = s.fetch.fetch_pc;
      };
    }
unfolding edge ex_results phase_d accept next_pending Fetch.word_valid Fetch.clock Fetch.capture
    fetch_ports fetch_start csr_ports csr_we write_port reg_we Regfile.clock CsrFile.clock
ex_sequential d r s h red m q v = rw (red, m, h, q, v) refl

pub ex_memory :
    (d : Bundle) (r : Response) (s : Core)
    → s.phase ≡ ph_ex
    → fetch_redirect d s ≡ false
    → (is_memory d && not (trap_pending d s)) ≡ true
    → s.word_pending ≡ false
    → s.fetch.fetch_phase ≡ f_idle
    → edge d r s ≡ record (ex_results d s) { phase = ph_mem }
unfolding edge ex_results phase_d accept next_pending Fetch.word_valid Fetch.clock Fetch.capture
    fetch_ports fetch_start csr_ports csr_we write_port reg_we Regfile.clock CsrFile.clock
ex_memory d r s h red m p q = rw (red, m, h, p, q) refl

pub mem_edge :
    (d : Bundle) (r : Response) (s : Core)
    → s.phase ≡ ph_mem
    → s.word_pending ≡ false
    → s.fetch.fetch_phase ≡ f_idle
    → r.rsp_valid ≡ true
    → edge d r s ≡ record s {
      phase = ph_wb;
      mem_rdata = r.rsp_rdata;
      csrs = tick s.csrs;
      fetch = record s.fetch { fetch_phase = f_req; fetch_pc = seq_pc d s };
    }
unfolding edge phase_d accept next_pending fetch_redirect Fetch.word_valid Fetch.clock Fetch.capture
    fetch_ports fetch_start csr_ports csr_we write_port reg_we Regfile.clock CsrFile.clock
mem_edge d r s h p q v = rw (h, p, q, v) refl

-- PH_WB: the writes, and the word that arrives.
pub wb_requested :
    (d : Bundle) (r : Response) (s : Core)
    → s.phase ≡ ph_wb
    → s.word_pending ≡ false
    → s.fetch.fetch_phase ≡ f_req
    → r.rsp_valid ≡ true
    → edge d r s ≡ record s {
      phase = ph_idle;
      word_pending = true;
      order = (s.order + 1) % 2 ^ 64;
      regs = Regfile.clock (write_port d s) s.regs;
      csrs = CsrFile.clock (csr_ports d s) s.csrs;
      fetch = record s.fetch {
        fetch_phase = f_idle;
        word = r.rsp_rdata;
        word_pc = s.fetch.fetch_pc;
      };
    }
unfolding edge phase_d accept next_pending fetch_redirect Fetch.word_valid Fetch.clock Fetch.capture
    fetch_ports fetch_start
wb_requested d r s h p q v = rw (h, p, q, v) refl

pub wb_pending :
    (d : Bundle) (r : Response) (s : Core)
    → s.phase ≡ ph_wb
    → s.word_pending ≡ true
    → s.fetch.fetch_phase ≡ f_idle
    → edge d r s ≡ record s {
      phase = ph_idle;
      order = (s.order + 1) % 2 ^ 64;
      regs = Regfile.clock (write_port d s) s.regs;
      csrs = CsrFile.clock (csr_ports d s) s.csrs;
    }
unfolding edge phase_d accept next_pending fetch_redirect Fetch.word_valid Fetch.clock Fetch.capture
    fetch_ports fetch_start
wb_pending d r s h p q = rw (h, p, q) refl
