-- ===== src/Rtl/Core/Retire/Traps.antt =====
-- rtl/core/rv32i_core.sv: a word that traps, from the one that waits to its handler.
use riscv_vibecoded.Rtl.Pkg.{complement}
use riscv_vibecoded.Rtl.Regfile
use riscv_vibecoded.Rtl.CsrFile
use riscv_vibecoded.Rtl.CsrFile.{Csrs, assign_mstatus, enter_trap, return_from_trap}
use riscv_vibecoded.Rtl.Decoder.Outputs.{Bundle}
use riscv_vibecoded.Rtl.Decoder.Classes.{decoder-IsSound, decoder-IsQuiet}
use riscv_vibecoded.Rtl.Decoder.Action.{bundle_action}
use riscv_vibecoded.Rtl.Core.State.{Core}
use riscv_vibecoded.Rtl.Core.Wires.{accepted_word, alu_result_comb, csr_write_en}
use riscv_vibecoded.Rtl.Core.Trap.{trap_pending}
use riscv_vibecoded.Rtl.Core.Clock.{is_memory}
use riscv_vibecoded.Rtl.Core.Stages.{tick}
use riscv_vibecoded.Rtl.Core.Retire.{
  cycles, ready, operands, next_pc, register_write, csr_retire, waited, Retired,
}
use riscv_vibecoded.Rtl.Core.Retire.Cause.{
  cause, value, trap-not_mret, trap_mcause-cause, trap_mtval-value,
}
use riscv_vibecoded.Rtl.Core.Retire.Run.{waiting, executing, latency, ready-Retired}
use riscv_vibecoded.Isa.Fields.{slice, bit}
use riscv_vibecoded.Prelude.{
  ℕ, ◌+◌, ◌*◌, ◌%◌, ◌^◌, bit_and, true, false, not, ◌&&◌, ◌≡◌, refl, sym, ap, ◌∙◌, subst, arith,
}

-- From the word that waits in s to the handler in t.
pub record Trapped (memory : ℕ → ℕ) (s t : Core) : Type 0 where
  pub waits : ready t ≡ true
  pub counted : t.order ≡ (s.order + 1) % 2 ^ 64
  pub handler : t.fetch.word_pc ≡ bit_and s.csrs.mtvec (complement 3)
  pub fetched : t.fetch.word ≡ memory (slice 31 2 t.fetch.word_pc * 2 ^ 2)
  pub mepc : t.csrs.mepc ≡ s.fetch.word_pc
  pub mcause : t.csrs.mcause ≡ cause (bundle_action (waiting s))
  pub mtval :
      t.csrs.mtval ≡ value (bundle_action (waiting s)) (alu_result_comb (waiting s) (executing s))
  pub mstatus : t.csrs.mstatus ≡ assign_mstatus 0 (bit 3 s.csrs.mstatus) 3 s.csrs.mstatus
  pub mtvec : t.csrs.mtvec ≡ s.csrs.mtvec
  pub registers : (r : ℕ) → t.regs r ≡ s.regs r

trap_latency : (s : Core) → trap_pending (waiting s) (executing s) ≡ true → latency s ≡ 4
unfolding latency
trap_latency s h = ground arith

pub plain_latency : (s : Core) → is_memory (waiting s) ≡ false → latency s ≡ 4
unfolding latency
plain_latency s h = rw h refl

pub waited_plain : (d : Bundle) (x : Core) → is_memory d ≡ false → waited d x ≡ tick x.csrs
waited_plain d x h = rw h refl

waited_trap : (d : Bundle) (x : Core) → trap_pending d x ≡ true → waited d x ≡ tick x.csrs
waited_trap d x h =
    let none : (is_memory d && not (trap_pending d x)) ≡ false = ground arith in rw none refl

-- The CSR file takes the trap, or the return, and no write.
entered :
    (d : Bundle) (x : Core)
    → trap_pending d x ≡ true
    → d.is_mret ≡ false
    → CsrFile.clock (csr_retire d x) (waited d x)
      ≡ enter_trap (csr_retire d x) (tick x.csrs) (tick (tick x.csrs))
unfolding CsrFile.clock csr_retire
entered d x h m =
    let no_write : (csr_write_en d x && not (trap_pending d x)) ≡ false = ground arith in
    rw (waited_trap d x h) (rw (no_write, h, m) refl)

no_write_register :
    (memory : ℕ → ℕ) (d : Bundle) (x : Core) (r : ℕ)
    → trap_pending d x ≡ true
    → Regfile.clock (register_write memory d x) x.regs r ≡ x.regs r
unfolding Regfile.clock register_write
no_write_register memory d x r h = ground arith

trap_vector_next :
    (d : Bundle) (x : Core)
    → trap_pending d x ≡ true
    → next_pc d x ≡ bit_and x.csrs.mtvec (complement 3)
unfolding next_pc
trap_vector_next d x h = rw h refl

-- Where a word that traps waits and the memory answers in the cycle of the request: after four cycles
-- the word at the trap vector waits, mepc is the word's address, mcause and mtval are those of the
-- instruction, MIE is saved and cleared, mtvec and the registers are as before, and the retired count
-- is one higher.
pub trap_enters :
    (memory : ℕ → ℕ) (s : Core)
    → ready s ≡ true
    → trap_pending (waiting s) (executing s) ≡ true
    → Trapped memory s (cycles memory 4 s)
unfolding operands enter_trap csr_retire
trap_enters memory s waits h =
    let d = waiting s in
    let x = executing s in
    let sound = decoder-IsSound (accepted_word s) in
    let fits = decoder-IsQuiet (accepted_word s) in
    let retired : Retired memory d x (cycles memory 4 s) =
      subst (λ (k : ℕ). Retired memory d x (cycles memory k s)) (trap_latency s h)
        (ready-Retired memory s waits) in
    let csrs = retired.csrs ∙ entered d x h (trap-not_mret d x sound h) in
    record {
      waits = retired.waits;
      counted = retired.counted;
      handler = retired.next ∙ trap_vector_next d x h;
      fetched = retired.fetched ∙ ap (λ (k : ℕ). memory (slice 31 2 k * 2 ^ 2)) (sym retired.next);
      mepc = ap (λ (c : Csrs). c.mepc) csrs;
      mcause = ap (λ (c : Csrs). c.mcause) csrs ∙ trap_mcause-cause d x sound fits h;
      mtval = ap (λ (c : Csrs). c.mtval) csrs ∙ trap_mtval-value d x sound fits h;
      mstatus = ap (λ (c : Csrs). c.mstatus) csrs;
      mtvec = ap (λ (c : Csrs). c.mtvec) csrs;
      registers = λ r. retired.written r ∙ no_write_register memory d x r h;
    }
