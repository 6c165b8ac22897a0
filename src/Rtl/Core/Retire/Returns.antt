-- ===== src/Rtl/Core/Retire/Returns.antt =====
-- rtl/core/rv32i_core.sv: the return of a handler, and a trap with its return.
use riscv_vibecoded.Rtl.Core.Retire.Traps.{Trapped, plain_latency, waited_plain, trap_enters}
use riscv_vibecoded.Rtl.Pkg.{complement}
use riscv_vibecoded.Rtl.Regfile
use riscv_vibecoded.Rtl.CsrFile
use riscv_vibecoded.Rtl.CsrFile.{Csrs, assign_mstatus, enter_trap, return_from_trap}
use riscv_vibecoded.Rtl.CsrFile.Traps.{IsWellFormed, assign_mstatus_lem}
use riscv_vibecoded.Bits.{bit_and_mask, bit_and_shifted}
use riscv_vibecoded.Rtl.Decoder.{decoder}
use riscv_vibecoded.Rtl.Decoder.Base.{decode_base, system_insn, environment}
use riscv_vibecoded.Rtl.Decoder.Outputs.{Bundle}
use riscv_vibecoded.Rtl.Decoder.Classes.{IsSound, IsQuiet, decoder-IsSound, decoder-IsQuiet}
use riscv_vibecoded.Rtl.Decoder.Action.{mret, bundle_action}
use riscv_vibecoded.Rtl.Core.State.{Core}
use riscv_vibecoded.Rtl.Core.Wires.{accepted_word, fetch_word_sel, csr_write_en}
use riscv_vibecoded.Rtl.Core.Trap.{trap_pending}
use riscv_vibecoded.Rtl.Core.Clock.{is_memory}
use riscv_vibecoded.Rtl.Core.Stages.{tick}
use riscv_vibecoded.Rtl.Core.Retire.{
  cycles, ready, operands, next_pc, register_write, csr_retire, waited, Retired,
}
use riscv_vibecoded.Rtl.Core.Retire.Cause.{misaligned_access, misaligned_target, unknown_csr}
use riscv_vibecoded.Rtl.Core.Retire.Run.{waiting, executing, ready-Retired, cycles_add}
use riscv_vibecoded.Isa.Fields.{slice, bit}
use riscv_vibecoded.Prelude.{
  ℕ, ◌+◌, ◌-◌, ◌*◌, ◌/◌, ◌<◌, ◌==◌, ◌%◌, ◌^◌, bit_and, true, false, ◌||◌, ◌≡◌, refl, sym, ap, ◌∙◌,
  subst, arith,
}

mret_flags :
    (d : Bundle)
    → IsSound d
    → IsQuiet d
    → bundle_action d ≡ mret
    → (d.is_mret ≡ true)
      × ((is_memory d || d.is_csr || d.is_branch || d.is_jal || d.rd_we) ≡ false)
      × ((d.is_illegal || d.is_ebreak || d.is_ecall) ≡ false)
unfolding bundle_action
mret_flags d sound fits h = (ground arith, ground arith, ground arith)

mret_quiet :
    (d : Bundle) (x : Core)
    → (is_memory d || d.is_csr || d.is_branch || d.is_jal || d.rd_we) ≡ false
    → (d.is_illegal || d.is_ebreak || d.is_ecall) ≡ false
    → trap_pending d x ≡ false
unfolding trap_pending
mret_quiet d x h k = ground (arith, misaligned_access d x, misaligned_target d x, unknown_csr d)

returned :
    (d : Bundle) (x : Core)
    → trap_pending d x ≡ false
    → d.is_mret ≡ true
    → is_memory d ≡ false
    → d.is_csr ≡ false
    → CsrFile.clock (csr_retire d x) (waited d x)
      ≡ return_from_trap (tick x.csrs) (tick (tick x.csrs))
unfolding CsrFile.clock csr_retire csr_write_en
returned d x h m no_memory no_csr = rw (waited_plain d x no_memory) (rw (h, no_csr, m) refl)

mepc_next :
    (d : Bundle) (x : Core)
    → trap_pending d x ≡ false
    → d.is_mret ≡ true
    → next_pc d x ≡ x.csrs.mepc
unfolding next_pc
mepc_next d x h m = rw (h, m) refl

no_destination :
    (memory : ℕ → ℕ) (d : Bundle) (x : Core) (r : ℕ)
    → d.rd_we ≡ false
    → Regfile.clock (register_write memory d x) x.regs r ≡ x.regs r
unfolding Regfile.clock register_write
no_destination memory d x r h = rw h refl

-- From an mret that waits in s to where it returns.
record Returned (s t : Core) : Type 0 where
  pub waits : ready t ≡ true
  pub counted : t.order ≡ (s.order + 1) % 2 ^ 64
  pub target : t.fetch.word_pc ≡ s.csrs.mepc
  pub mstatus : t.csrs.mstatus ≡ assign_mstatus (bit 7 s.csrs.mstatus) 1 0 s.csrs.mstatus
  pub registers : (r : ℕ) → t.regs r ≡ s.regs r

mret_returns :
    (memory : ℕ → ℕ) (s : Core)
    → ready s ≡ true
    → bundle_action (waiting s) ≡ mret
    → Returned s (cycles memory 4 s)
unfolding operands return_from_trap
mret_returns memory s waits is_mret =
    let d = waiting s in
    let x = executing s in
    let (m, plain, legal) =
      mret_flags d (decoder-IsSound (accepted_word s)) (decoder-IsQuiet (accepted_word s))
        is_mret in
    let no_memory : is_memory d ≡ false = ground arith in
    let no_csr : d.is_csr ≡ false = ground arith in
    let no_write : d.rd_we ≡ false = ground arith in
    let quiet = mret_quiet d x plain legal in
    let retired : Retired memory d x (cycles memory 4 s) =
      subst (λ (k : ℕ). Retired memory d x (cycles memory k s)) (plain_latency s no_memory)
        (ready-Retired memory s waits) in
    let csrs = retired.csrs ∙ returned d x quiet m no_memory no_csr in
    record {
      waits = retired.waits;
      counted = retired.counted;
      target = retired.next ∙ mepc_next d x quiet m;
      mstatus = ap (λ (c : Csrs). c.mstatus) csrs;
      registers = λ r. retired.written r ∙ no_destination memory d x r no_write;
    }

vector_lem : (m : ℕ) → m < 2 ^ 32 → bit_and m (complement 3) ≡ m / 4 * 4
vector_lem m h = omega (arith, bit_and_shifted 2 (2 ^ 30 - 1) m, bit_and_mask 30 (m / 4))

aligned_word :
    (t : Core) (m w : ℕ)
    → t.fetch.word_pc ≡ m / 4 * 4
    → t.fetch.word ≡ w
    → slice 1 0 (slice 15 0 w) ≡ 3
    → accepted_word t ≡ w
unfolding accepted_word fetch_word_sel
aligned_word t m w pc word full =
    let low : (bit 1 (m / 4 * 4) == 1) ≡ false = ground arith in rw (pc, word, low, full) refl

-- mret
abbrev mret_word : ℕ
mret_word = 0x30200073

mret_action : bundle_action (decoder mret_word) ≡ mret
unfolding bundle_action decoder decode_base system_insn environment
mret_action = refl

mret_waits :
    (memory : ℕ → ℕ) (s t : Core)
    → Trapped memory s t
    → s.csrs.mtvec < 2 ^ 32
    → memory (bit_and s.csrs.mtvec (complement 3)) ≡ mret_word
    → bundle_action (waiting t) ≡ mret
mret_waits memory s t trapped word held =
    let m = s.csrs.mtvec in
    let vector = vector_lem m word in
    let pc : t.fetch.word_pc ≡ m / 4 * 4 = trapped.handler ∙ vector in
    let same : slice 31 2 (m / 4 * 4) * 2 ^ 2 ≡ m / 4 * 4 = omega (arith, word) in
    let address : slice 31 2 t.fetch.word_pc * 2 ^ 2 ≡ bit_and m (complement 3) =
      ap (λ (k : ℕ). slice 31 2 k * 2 ^ 2) pc ∙ same ∙ sym vector in
    ap (λ (k : ℕ). bundle_action (decoder k))
      (aligned_word t m mret_word pc (trapped.fetched ∙ ap memory address ∙ held) refl)
    ∙ mret_action

-- Where a word that traps waits, the memory answers in the cycle of the request and holds an mret at
-- the trap vector, and the CSRs are within their widths, with mstatus of MIE, MPIE and MPP only: after
-- the eight cycles of both words, the trapping word's address is fetched again, two words are retired,
-- MIE is as before, MPIE is set, MPP is zero, where docs/design.md asks for 11, and the registers are as
-- before.
pub trap_and_return :
    (memory : ℕ → ℕ) (s : Core)
    → ready s ≡ true
    → trap_pending (waiting s) (executing s) ≡ true
    → IsWellFormed s.csrs
    → memory (bit_and s.csrs.mtvec (complement 3)) ≡ 0x30200073
    → (ready (cycles memory 8 s) ≡ true)
      × ((cycles memory 8 s).fetch.word_pc ≡ s.fetch.word_pc)
      × ((cycles memory 8 s).order ≡ (s.order + 2) % 2 ^ 64)
      × ((cycles memory 8 s).csrs.mstatus ≡ bit 3 s.csrs.mstatus * 2 ^ 3 + 2 ^ 7)
      × ((r : ℕ) → (cycles memory 8 s).regs r ≡ s.regs r)
trap_and_return memory s waits h well held =
    let t = cycles memory 4 s in
    let trapped = trap_enters memory s waits h in
    let back =
      mret_returns memory t trapped.waits (mret_waits memory s t trapped well.mtvec_word held) in
    rw (cycles_add memory 4 4 s) (
      back.waits,
      back.target ∙ trapped.mepc,
      rw (back.counted, trapped.counted) (omega arith),
      rw (back.mstatus, trapped.mstatus)
          (assign_mstatus_lem (bit 3 s.csrs.mstatus) s.csrs.mstatus (omega arith) well.fields),
      λ r. back.registers r ∙ trapped.registers r,
    )
