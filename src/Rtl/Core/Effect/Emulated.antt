-- ===== src/Rtl/Core/Effect/Emulated.antt =====
-- The emulator of tools/gen_expected.py beside the core of rtl/core/rv32i_core.sv: a round of the one
-- and the cycles of an instruction of the other.
use riscv_vibecoded.Emulator.{Kind, State}
use riscv_vibecoded.Emulator.Bounds.Run.{WellFormed}
use riscv_vibecoded.Emulator.Simulation.{round}
use riscv_vibecoded.Emulator.Simulation.Made.{Made, Made-Agrees}
use riscv_vibecoded.Emulator.Simulation.Machine.{
  execute_decoded, execute_word, execute_word-Encodes,
}
use riscv_vibecoded.Isa.Insn.{Insn, decode, bytes}
use riscv_vibecoded.Isa.Execute.{execute}
use riscv_vibecoded.Rtl.Decoder.Action.{insn_action}
use riscv_vibecoded.Rtl.Core.State.{Core}
use riscv_vibecoded.Rtl.Core.Wires.{accepted_word}
use riscv_vibecoded.Rtl.Core.Trap.{trap_pending}
use riscv_vibecoded.Rtl.Core.Retire.{cycles, ready}
use riscv_vibecoded.Rtl.Core.Retire.Run.{waiting, executing, latency}
use riscv_vibecoded.Rtl.Core.Effect.{Effect as Outcome, effect}
use riscv_vibecoded.Rtl.Core.Effect.Insn.{insn_executes}
use riscv_vibecoded.Rtl.Core.Effect.Immediates.{decode-HasWords}
use riscv_vibecoded.Rtl.Core.Effect.Registers.{Matches}
use riscv_vibecoded.Rtl.Core.Effect.Reference.{execute-Matches}
use riscv_vibecoded.Py.Int.{ℤ, pos}
use riscv_vibecoded.Py.Error.{ok}
use riscv_vibecoded.Prelude.{
  ℕ, ◌+◌, ◌^◌, ◌<◌, true, false, Option, some, List, length, ◌≡◌, sym, ap, ◌∙◌, subst,
}

Matches-eq :
    (s : State) (pc pc' : ℕ) (regs regs' : ℕ → ℕ)
    → pc' ≡ pc
    → ((r : ℕ) → regs' r ≡ regs r)
    → Matches s pc regs
    → Matches s pc' regs'
Matches-eq s pc pc' regs regs' same each m =
    subst (λ (p : ℕ). Matches s p regs') (sym same)
      (subst (λ (f : ℕ → ℕ). Matches s pc f) (λ i r. sym (each r) i) m)

-- A round of an entry made with its encoder executes the instruction of its word.
round-execute :
    (s s' : State) (k : Kind) (a : List ℤ) (w : ℕ) (i : Insn)
    → decode w ≡ some i
    → WellFormed s
    → length s.regs ≡ 32
    → Made s.pc (pos w) k a
    → round k (pos w) a s ≡ ok s'
    → execute i (bytes w) s ≡ ok s'
round-execute s s' k a w i decoded well full made h =
    let (size, j, encodes, same) = Made-Agrees (pos w) s well full k a made in
    by_word ∙ execute_word-Encodes (pos w) size j s encodes ∙ sym same ∙ h
  where
    by_word : execute i (bytes w) s ≡ execute_word (pos w) s
    by_word =
        unfold execute_word in ap (λ (o : Option Insn). execute_decoded o (bytes w) s) (sym decoded)

-- Where the core waits with the word of an instruction that reads and writes registers only and does
-- not trap, the memory answers at once, and the emulator stands at an entry that was made with that
-- word, with the program counter and the registers of the core and words of 32 bits: after a
-- successful round of the emulator and the cycles of that instruction in the core, they have the same
-- program counter and registers again, and the core waits with the next word. The instruction ends
-- below address 2^32.
pub round-cycles :
    (memory : ℕ → ℕ) (c : Core) (s s' : State) (k : Kind) (a : List ℤ) (i : Insn) (e : Outcome)
    → ready c ≡ true
    → decode (accepted_word c) ≡ some i
    → trap_pending (waiting c) (executing c) ≡ false
    → effect (insn_action i) c.fetch.word_pc (bytes (accepted_word c)) c.regs ≡ some e
    → c.fetch.word_pc + bytes (accepted_word c) < 2 ^ 32
    → Matches s c.fetch.word_pc c.regs
    → WellFormed s
    → Made s.pc (pos (accepted_word c)) k a
    → round k (pos (accepted_word c)) a s ≡ ok s'
    → (ready (cycles memory (latency c) c) ≡ true)
      × Matches s' (cycles memory (latency c) c).fetch.word_pc (cycles memory (latency c) c).regs
round-cycles memory c s s' k a i e waits decoded quiet eff below m well made h =
    let (again, next, written) = insn_executes memory c i e waits decoded quiet eff in
    let executed = round-execute s s' k a (accepted_word c) i decoded well m.full made h in
    let matched =
      execute-Matches i s s' c.fetch.word_pc (bytes (accepted_word c)) c.regs e m below
        (decode-HasWords (accepted_word c) i decoded) executed eff in
    (again, Matches-eq s' e.next _ _ _ next written matched)
