-- ===== src/Rtl/Core/Effect/Quiet.antt =====
-- Actions that use registers only and keep the program counter even: they trap nowhere, and take four
-- cycles.
use riscv_vibecoded.Rtl.Decoder.Outputs.{Bundle}
use riscv_vibecoded.Rtl.Decoder.Classes.{IsSound}
use riscv_vibecoded.Rtl.Decoder.Action.{
  Action, compute, jump, jump_register, branch, load, store, csr, ecall, ebreak, mret, nothing,
  illegal, bundle_action,
}
use riscv_vibecoded.Rtl.Core.State.{Core}
use riscv_vibecoded.Rtl.Core.Wires.{branch_target}
use riscv_vibecoded.Rtl.Core.Trap.{trap_pending, trap_inst_misalign, trap_mem_mis, trap_illegal_csr}
use riscv_vibecoded.Rtl.Core.Clock.{is_memory}
use riscv_vibecoded.Rtl.Core.Effect.Flags.{jump_flags, branch_flags}
use riscv_vibecoded.Rtl.Core.Effect.{Effect as Outcome, effect}
use riscv_vibecoded.Prelude.{ℕ, ◌%◌, Bool, true, false, ◌||◌, ◌==◌, some, ◌≡◌, refl, arith}

unfoldable pub uses_registers : Action → Bool
uses_registers (compute o a b rd) = true
uses_registers (jump rd imm) = imm % 2 == 0
uses_registers (jump_register rs1 rd imm) = true
uses_registers (branch funct3 a b imm) = imm % 2 == 0
uses_registers nothing = true
uses_registers _ = false

pub effect_exists :
    (a : Action) (pc n : ℕ) (regs : ℕ → ℕ)
    → uses_registers a ≡ true
    → (e : Outcome) × (effect a pc n regs ≡ some e)
unfolding uses_registers effect
effect_exists (compute o a b rd) pc n regs h = (_, refl)
effect_exists (jump rd imm) pc n regs h = (_, refl)
effect_exists (jump_register rs1 rd imm) pc n regs h = (_, refl)
effect_exists (branch funct3 a b imm) pc n regs h = (_, refl)
effect_exists (load funct3 o a b rd) pc n regs h = absurd (ground arith)
effect_exists (store funct3 o a b rs2) pc n regs h = absurd (ground arith)
effect_exists (csr o immediate addr rs1 rd) pc n regs h = absurd (ground arith)
effect_exists ecall pc n regs h = absurd (ground arith)
effect_exists ebreak pc n regs h = absurd (ground arith)
effect_exists mret pc n regs h = absurd (ground arith)
effect_exists nothing pc n regs h = (_, refl)
effect_exists illegal pc n regs h = absurd (ground arith)

abbrev trap_flags : Bundle → Bool
trap_flags d = d.is_illegal || d.is_ebreak || d.is_ecall || d.is_load || d.is_store || d.is_csr

without_flags :
    (d : Bundle) (x : Core)
    → trap_flags d ≡ false
    → trap_inst_misalign d x ≡ false
    → (trap_pending d x ≡ false) × (is_memory d ≡ false)
unfolding trap_pending trap_mem_mis trap_illegal_csr
without_flags d x h k = (ground arith, ground arith)

no_target :
    (d : Bundle) (x : Core)
    → d.is_branch ≡ false
    → d.is_jal ≡ false
    → trap_inst_misalign d x ≡ false
unfolding trap_inst_misalign
no_target d x h k = rw (h, k) refl

even_target :
    (d : Bundle) (x : Core)
    → d.is_jalr ≡ false
    → d.imm % 2 ≡ 0
    → x.pc_exe % 2 ≡ 0
    → trap_inst_misalign d x ≡ false
unfolding trap_inst_misalign branch_target
even_target d x h k even = ground arith

pub uses_registers-quiet :
    (d : Bundle) (x : Core) (a : Action)
    → IsSound d
    → bundle_action d ≡ a
    → uses_registers a ≡ true
    → x.pc_exe % 2 ≡ 0
    → (trap_pending d x ≡ false) × (is_memory d ≡ false)
unfolding uses_registers bundle_action
uses_registers-quiet d x (compute o a b rd) sound h k even =
    without_flags d x (ground arith) (no_target d x (ground arith) (ground arith))
uses_registers-quiet d x (jump rd imm) sound h k even =
    let flags = jump_flags d rd imm sound h in
    without_flags d x (ground arith)
      (even_target d x (ground (arith, flags.3)) (rw (flags.0) (ground arith)) even)
uses_registers-quiet d x (jump_register rs1 rd imm) sound h k even =
    without_flags d x (ground arith) (no_target d x (ground arith) (ground arith))
uses_registers-quiet d x (branch funct3 a b imm) sound h k even =
    let flags = branch_flags d funct3 a b imm sound h in
    without_flags d x (ground arith)
      (even_target d x (ground (arith, flags.5)) (rw (flags.3) (ground arith)) even)
uses_registers-quiet d x (load funct3 o a b rd) sound h k even = absurd (ground arith)
uses_registers-quiet d x (store funct3 o a b rs2) sound h k even = absurd (ground arith)
uses_registers-quiet d x (csr o immediate addr rs1 rd) sound h k even = absurd (ground arith)
uses_registers-quiet d x ecall sound h k even = absurd (ground arith)
uses_registers-quiet d x ebreak sound h k even = absurd (ground arith)
uses_registers-quiet d x mret sound h k even = absurd (ground arith)
uses_registers-quiet d x nothing sound h k even =
    without_flags d x (ground arith) (no_target d x (ground arith) (ground arith))
uses_registers-quiet d x illegal sound h k even = absurd (ground arith)
