-- ===== src/Rtl/Core/Effect/Insn.antt =====
-- From the word that waits to the registers after it: the core of rtl/core/rv32i_core.sv, its decoder
-- and its ALU together do what the instruction set says of the instruction.
use riscv_vibecoded.Isa.Insn.{Insn, decode, bytes}
use riscv_vibecoded.Rtl.Decoder.Classes.{decoder-IsSound}
use riscv_vibecoded.Rtl.Decoder.Action.{insn_action, bundle_action, Performs}
use riscv_vibecoded.Rtl.Decoder.Base16.{decoder-Performs}
use riscv_vibecoded.Rtl.Decoder.Size.{decoder-bytes}
use riscv_vibecoded.Rtl.Core.State.{Core}
use riscv_vibecoded.Rtl.Core.Wires.{accepted_word}
use riscv_vibecoded.Rtl.Core.Trap.{trap_pending}
use riscv_vibecoded.Rtl.Core.Retire.{cycles, ready, operands}
use riscv_vibecoded.Rtl.Core.Retire.Run.{waiting, executing, latency, ready-Retired}
use riscv_vibecoded.Rtl.Core.Effect.{Effect as Outcome, effect, after, bytes_of}
use riscv_vibecoded.Rtl.Core.Effect.Wires.{Gives, GivesAny, action-GivesAny}
use riscv_vibecoded.Prelude.{ℕ, true, false, some, ◌≡◌, refl, ◌∙◌, subst}

waiting-GivesAny :
    (memory : ℕ → ℕ) (s : Core)
    → trap_pending (waiting s) (executing s) ≡ false
    → GivesAny memory
        (waiting s)
        s.regs
        (executing s)
        (effect (bundle_action (waiting s)) s.fetch.word_pc (bytes_of (waiting s)) s.regs)
unfolding operands
waiting-GivesAny memory s quiet =
    action-GivesAny memory (waiting s) s.regs (executing s) (bundle_action (waiting s))
      record { operand_1 = refl; operand_2 = refl } (decoder-IsSound (accepted_word s)) quiet refl

effect_of :
    (s : Core) (i : Insn)
    → decode (accepted_word s) ≡ some i
    → effect (bundle_action (waiting s)) s.fetch.word_pc (bytes_of (waiting s)) s.regs
      ≡ effect (insn_action i) s.fetch.word_pc (bytes (accepted_word s)) s.regs
effect_of s i h =
    let performs : bundle_action (waiting s) ≡ insn_action i =
      subst (λ o. Performs o (waiting s)) h (decoder-Performs (accepted_word s)) in
    rw (performs, decoder-bytes (accepted_word s)) refl

-- With a memory that answers in the cycle of the request: where the word that waits stands for an
-- instruction i that reads and writes registers only, and does not trap, then after the cycles of
-- that word the next one waits, at the address that the instruction set gives, and the registers have
-- the instruction's value in its register and are as before everywhere else.
pub insn_executes :
    (memory : ℕ → ℕ) (s : Core) (i : Insn) (e : Outcome)
    → ready s ≡ true
    → decode (accepted_word s) ≡ some i
    → trap_pending (waiting s) (executing s) ≡ false
    → effect (insn_action i) s.fetch.word_pc (bytes (accepted_word s)) s.regs ≡ some e
    → (ready (cycles memory (latency s) s) ≡ true)
      × ((cycles memory (latency s) s).fetch.word_pc ≡ e.next)
      × ((r : ℕ) → (cycles memory (latency s) s).regs r ≡ after e s.regs r)
unfolding operands
insn_executes memory s i e waits decoded quiet eff =
    let gives : Gives memory (waiting s) s.regs (executing s) e =
      subst (GivesAny memory (waiting s) s.regs (executing s)) (effect_of s i decoded ∙ eff)
        (waiting-GivesAny memory s quiet) in
    let retired = ready-Retired memory s waits in
    (retired.waits, retired.next ∙ gives.0, λ r. retired.written r ∙ gives.1 r)
