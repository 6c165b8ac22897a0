-- ===== src/Rtl/Core/Effect/Meaning.antt =====
-- What the instructions do to registers and the program counter, written from the instruction set and,
-- for the M extension, from the alternative operations of riscv-formal; and that the core of
-- rtl/core/rv32i_core.sv with its ALU does it.
use riscv_vibecoded.Isa.Insn.{Insn, decode, bytes}
use riscv_vibecoded.Rtl.Pkg.{
  AluOp, alu_add, alu_sub, alu_sll, alu_slt, alu_sltu, alu_xor, alu_srl, alu_sra, alu_or, alu_and,
  alu_mul_alt, alu_mulh_alt, alu_mulhsu_alt, alu_mulhu_alt, alu_div_alt, alu_divu_alt, alu_rem_alt,
  alu_remu_alt, signed, complement,
}
use riscv_vibecoded.Rtl.Alu
use riscv_vibecoded.Rtl.Decoder.Action.{
  Action, compute, jump, jump_register, branch, load, store, csr, ecall, ebreak, mret, nothing,
  illegal, read, insn_action,
}
use riscv_vibecoded.Rtl.Core.State.{Core}
use riscv_vibecoded.Rtl.Core.Wires.{accepted_word}
use riscv_vibecoded.Rtl.Core.Trap.{trap_pending}
use riscv_vibecoded.Rtl.Core.Retire.{cycles, ready}
use riscv_vibecoded.Rtl.Core.Retire.Run.{waiting, executing, latency}
use riscv_vibecoded.Rtl.Core.Effect.{Effect as Outcome, effect, value_of}
use riscv_vibecoded.Rtl.Core.Effect.Arithmetic.{even_target}
use riscv_vibecoded.Rtl.Core.Effect.Insn.{insn_executes}
use riscv_vibecoded.Bits.{bit_and_mask}
use riscv_vibecoded.Isa.Fields.{slice}
use riscv_vibecoded.Py.Int.{ℤ, pos, negsuc, ltb_ℤ, leb_ℤ, ◌>>ℤ◌}
use riscv_vibecoded.Py.Int.Mask.{low32}
use riscv_vibecoded.Prelude.{
  ℕ, ◌+◌, ◌-◌, ◌*◌, ◌/◌, ◌%◌, ◌^◌, ◌≡◌, bit_and, bit_or, bit_xor, Bool, true, false, not, ltb, leb,
  ◌==◌, ◌&&◌, if◌then◌else◌, Option, none, some, refl, arith, sym, ap, ◌∙◌,
}

-- The number that a word stands for in two's complement.
abbrev pub to_int : ℕ → ℤ
to_int a = if leb (2 ^ 31) (a % 2 ^ 32) then negsuc (2 ^ 32 - 1 - a) else pos a

-- The value of an operation on two words.
abbrev pub meaning : AluOp → ℕ → ℕ → ℕ
meaning alu_add a b = (a + b) % 2 ^ 32
meaning alu_sub a b = (a + 2 ^ 32 - b) % 2 ^ 32
meaning alu_sll a b = a * 2 ^ (b % 32) % 2 ^ 32
meaning alu_slt a b = if leb_ℤ (to_int b) (to_int a) then 0 else 1
meaning alu_sltu a b = if leb b a then 0 else 1
meaning alu_xor a b = bit_xor a b
meaning alu_srl a b = a / 2 ^ (b % 32)
meaning alu_sra a b = low32 (to_int a >>ℤ (b % 32))
meaning alu_or a b = bit_or a b
meaning alu_and a b = bit_and a b
meaning alu_mul_alt a b = bit_xor ((a + b) % 2 ^ 32) 0x5876063e
meaning alu_mulh_alt a b = bit_xor ((a + b) % 2 ^ 32) 0xf6583fb7
meaning alu_mulhsu_alt a b = bit_xor ((a + 2 ^ 32 - b) % 2 ^ 32) 0xecfbe137
meaning alu_mulhu_alt a b = bit_xor ((a + b) % 2 ^ 32) 0x949ce5e8
meaning alu_div_alt a b = bit_xor ((a + 2 ^ 32 - b) % 2 ^ 32) 0x7f8529ec
meaning alu_divu_alt a b = bit_xor ((a + 2 ^ 32 - b) % 2 ^ 32) 0x10e8fd70
meaning alu_rem_alt a b = bit_xor ((a + 2 ^ 32 - b) % 2 ^ 32) 0x8da68fa5
meaning alu_remu_alt a b = bit_xor ((a + 2 ^ 32 - b) % 2 ^ 32) 0x3138d0e1

-- Whether a branch goes: beq, bne, blt, bge, bltu and bgeu.
abbrev pub goes : (funct3 a b : ℕ) → Bool
goes funct3 a b =
    if funct3 == 0
    then a == b
    else if funct3 == 1
    then not (a == b)
    else if funct3 == 4
    then ltb_ℤ (to_int a) (to_int b)
    else if funct3 == 5
    then leb_ℤ (to_int b) (to_int a)
    else if funct3 == 6
    then ltb a b
    else funct3 == 7 && leb b a

-- An instruction of n bytes at pc that reads and writes registers only; `none` for any other.
abbrev pub outcome : Action → (pc n : ℕ) → (ℕ → ℕ) → Option Outcome
outcome (compute o a b rd) pc n regs = some (record {
  rd = rd;
  value = meaning o (value_of a pc regs) (value_of b pc regs);
  next = (pc + n) % 2 ^ 32;
})
outcome (jump rd imm) pc n regs =
    some (record { rd = rd; value = (pc + n) % 2 ^ 32; next = (pc + imm) % 2 ^ 32 })
outcome (jump_register rs1 rd imm) pc n regs =
    let target = (value_of (read rs1) pc regs + imm) % 2 ^ 32 in
    some (record { rd = rd; value = (pc + n) % 2 ^ 32; next = target - target % 2 })
outcome (branch funct3 a b imm) pc n regs = some (record {
  rd = 0;
  value = 0;
  next = (pc + (if goes funct3 (value_of a pc regs) (value_of b pc regs) then imm else n)) % 2 ^ 32;
})
outcome nothing pc n regs = some (record { rd = 0; value = 0; next = (pc + n) % 2 ^ 32 })
outcome _ pc n regs = none

signed-to_int : (a : ℕ) → signed a ≡ to_int a
unfolding signed
signed-to_int a = ground arith

slice-mod : (b : ℕ) → slice 4 0 b ≡ b % 32
slice-mod b = omega arith

result-meaning : (o : AluOp) (a b : ℕ) → Alu.result o a b ≡ meaning o a b
unfolding Alu.result
result-meaning alu_add a b = refl
result-meaning alu_sub a b = refl
result-meaning alu_sll a b = rw (slice-mod b) refl
result-meaning alu_slt a b = ground (arith, signed-to_int a, signed-to_int b)
result-meaning alu_sltu a b = ground arith
result-meaning alu_xor a b = refl
result-meaning alu_srl a b = rw (slice-mod b) refl
result-meaning alu_sra a b = rw (slice-mod b, signed-to_int a) refl
result-meaning alu_or a b = refl
result-meaning alu_and a b = refl
result-meaning alu_mul_alt a b = refl
result-meaning alu_mulh_alt a b = refl
result-meaning alu_mulhsu_alt a b = refl
result-meaning alu_mulhu_alt a b = refl
result-meaning alu_div_alt a b = refl
result-meaning alu_divu_alt a b = refl
result-meaning alu_rem_alt a b = refl
result-meaning alu_remu_alt a b = refl

branch_taken-goes : (funct3 a b : ℕ) → Alu.branch_taken funct3 a b ≡ goes funct3 a b
unfolding Alu.branch_taken
branch_taken-goes funct3 a b = ground (arith, signed-to_int a, signed-to_int b)

even_lem : (t : ℕ) → bit_and (t % 2 ^ 32) (complement 1) ≡ t % 2 ^ 32 - t % 2 ^ 32 % 2
even_lem t =
    sym (even_target (t % 2 ^ 32) (omega arith))
    ∙ ap (λ (k : ℕ). t % 2 ^ 32 - k) (bit_and_mask 1 (t % 2 ^ 32))

effect-outcome :
    (act : Action) (pc n : ℕ) (regs : ℕ → ℕ) → effect act pc n regs ≡ outcome act pc n regs
unfolding effect
effect-outcome (compute o a b rd) pc n regs =
    rw (result-meaning o (value_of a pc regs) (value_of b pc regs)) refl
effect-outcome (jump rd imm) pc n regs = refl
effect-outcome (jump_register rs1 rd imm) pc n regs =
    rw (even_lem (value_of (read rs1) pc regs + imm)) refl
effect-outcome (branch funct3 a b imm) pc n regs =
    rw (branch_taken-goes funct3 (value_of a pc regs) (value_of b pc regs)) (ground arith)
effect-outcome nothing pc n regs = refl
effect-outcome (load funct3 o a b rd) pc n regs = refl
effect-outcome (store funct3 o a b rs2) pc n regs = refl
effect-outcome (csr o i addr rs1 rd) pc n regs = refl
effect-outcome ecall pc n regs = refl
effect-outcome ebreak pc n regs = refl
effect-outcome mret pc n regs = refl
effect-outcome illegal pc n regs = refl

-- With a memory that answers in the cycle of the request: where the word that waits stands for an
-- instruction i that reads and writes registers only, and does not trap, then after the cycles of
-- that word the next one waits, at the address that the instruction set gives, and the registers have
-- the value that it gives in the instruction's register and are as before everywhere else. For the M
-- extension the values are those of the alternative operations of riscv-formal.
pub insn_meaning :
    (memory : ℕ → ℕ) (s : Core) (i : Insn) (e : Outcome)
    → ready s ≡ true
    → decode (accepted_word s) ≡ some i
    → trap_pending (waiting s) (executing s) ≡ false
    → outcome (insn_action i) s.fetch.word_pc (bytes (accepted_word s)) s.regs ≡ some e
    → (ready (cycles memory (latency s) s) ≡ true)
      × ((cycles memory (latency s) s).fetch.word_pc ≡ e.next)
      × ((r : ℕ)
          → (cycles memory (latency s) s).regs r
            ≡ (if not (e.rd == 0) && r == e.rd then e.value else s.regs r))
insn_meaning memory s i e waits decoded quiet means =
    insn_executes memory s i e waits decoded quiet
      (effect-outcome (insn_action i) s.fetch.word_pc (bytes (accepted_word s)) s.regs ∙ means)
