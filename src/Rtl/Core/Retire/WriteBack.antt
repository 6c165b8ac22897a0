-- ===== src/Rtl/Core/Retire/WriteBack.antt =====
-- rtl/core/rv32i_core.sv: PH_WB, the register write and the word that arrives.
use riscv_vibecoded.Rtl.Core.Retire.{
  answer, cycle, next_pc, register_value, register_write, csr_retire, waited, Retired,
}
use riscv_vibecoded.Rtl.Pkg.{ph_wb, f_idle, f_req}
use riscv_vibecoded.Rtl.Fetch
use riscv_vibecoded.Rtl.Fetch.{requesting}
use riscv_vibecoded.Rtl.Regfile
use riscv_vibecoded.Rtl.Regfile.{WritePort}
use riscv_vibecoded.Rtl.Decoder.{decoder}
use riscv_vibecoded.Rtl.Decoder.Outputs.{Bundle}
use riscv_vibecoded.Rtl.Core.State.{Core}
use riscv_vibecoded.Rtl.Core.Wires.{rd_wdata, csr_write_en, csr_operand, csr_new_val}
use riscv_vibecoded.Rtl.Core.Trap.{trap_pending, trap_mcause, trap_mtval}
use riscv_vibecoded.Rtl.Core.Clock.{clock, write_port, reg_we, csr_ports, csr_we}
use riscv_vibecoded.Rtl.Core.Outputs.{request}
use riscv_vibecoded.Rtl.Core.Stages.{wb_requested, wb_pending}
use riscv_vibecoded.Isa.Fields.{slice}
use riscv_vibecoded.Prelude.{
  ℕ, ◌+◌, ◌*◌, ◌%◌, ◌^◌, true, false, ◌≡◌, refl, arith, ap, inl, inr, Bool-cases,
}

-- The register write of y in PH_WB is that of x in PH_EX.
pub same_write :
    (memory : ℕ → ℕ) (d : Bundle) (x y : Core)
    → y.phase ≡ ph_wb
    → y.trap_exe ≡ trap_pending d x
    → ((i : ℕ) → y.regs i ≡ x.regs i)
    → (trap_pending d x ≡ false → rd_wdata d y ≡ register_value memory d x)
    → (i : ℕ)
    → Regfile.clock (write_port d y) y.regs i ≡ Regfile.clock (register_write memory d x) x.regs i
unfolding Regfile.clock write_port reg_we register_write
same_write memory d x y h trap regs value i = elim (Bool-cases (trap_pending d x)) [
  | inl e ↦ rw (trap, e, regs i) (ground arith)
  | inr e ↦ rw (value e, trap, e, regs i, h) (ground arith)
]

-- Its CSR ports are those of x, where the operands and the results of PH_EX are kept.
pub same_csrs :
    (d : Bundle) (x y : Core)
    → y.phase ≡ ph_wb
    → y.insn_exe ≡ x.insn_exe
    → y.rs1 ≡ x.rs1
    → y.pc_exe ≡ x.pc_exe
    → y.trap_exe ≡ trap_pending d x
    → y.mret_exe ≡ d.is_mret
    → y.trap_mcause ≡ trap_mcause d x
    → y.trap_mtval ≡ trap_mtval d x
    → y.csrs ≡ waited d x
    → (csr_ports d y ≡ csr_retire d x) × (y.csrs ≡ waited d x)
unfolding csr_ports csr_we csr_retire csr_write_en csr_operand csr_new_val
same_csrs d x y h insn rs1 pc trap mret cause value csrs =
    (rw (h, insn, rs1, pc, trap, mret, cause, value, csrs) refl, csrs)

pub wb_retires_requested :
    (memory : ℕ → ℕ) (d : Bundle) (x y : Core)
    → decoder y.insn_exe ≡ d
    → y.phase ≡ ph_wb
    → y.word_pending ≡ false
    → y.fetch.fetch_phase ≡ f_req
    → y.fetch.fetch_pc ≡ next_pc d x
    → y.order ≡ x.order
    → (csr_ports d y ≡ csr_retire d x) × (y.csrs ≡ waited d x)
    → ((i : ℕ)
        → Regfile.clock (write_port d y) y.regs i
          ≡ Regfile.clock (register_write memory d x) x.regs i)
    → Retired memory d x (cycle memory y)
unfolding cycle clock request Fetch.req_valid Fetch.req_addr
wb_retires_requested memory d x y hd h p q target order csrs writes =
    let valid : (answer memory y).rsp_valid ≡ true = rw (h, q) refl in
    rw (hd, wb_requested d (answer memory y) y h p q valid)
      record {
        waits = refl;
        counted = ap (λ (t : ℕ). (t + 1) % 2 ^ 64) order;
        next = target;
        fetched = rw (h, target) refl;
        csrs = rw (csrs.0, csrs.1) refl;
        written = writes;
      }

pub wb_retires_pending :
    (memory : ℕ → ℕ) (d : Bundle) (x y : Core)
    → decoder y.insn_exe ≡ d
    → y.phase ≡ ph_wb
    → y.word_pending ≡ true
    → y.fetch.fetch_phase ≡ f_idle
    → y.fetch.word_pc ≡ next_pc d x
    → y.fetch.word ≡ memory (slice 31 2 (next_pc d x) * 2 ^ 2)
    → y.order ≡ x.order
    → (csr_ports d y ≡ csr_retire d x) × (y.csrs ≡ waited d x)
    → ((i : ℕ)
        → Regfile.clock (write_port d y) y.regs i
          ≡ Regfile.clock (register_write memory d x) x.regs i)
    → Retired memory d x (cycle memory y)
unfolding cycle clock
wb_retires_pending memory d x y hd h p q target word order csrs writes =
    rw (hd, wb_pending d (answer memory y) y h p q)
      record {
        waits = rw (p, q) refl;
        counted = ap (λ (t : ℕ). (t + 1) % 2 ^ 64) order;
        next = target;
        fetched = word;
        csrs = rw (csrs.0, csrs.1) refl;
        written = writes;
      }
