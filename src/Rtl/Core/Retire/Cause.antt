-- ===== src/Rtl/Core/Retire/Cause.antt =====
-- rtl/core/rv32i_core.sv: the cause and the value of a trap, against those that the instruction has.
use riscv_vibecoded.Rtl.Decoder.Outputs.{Bundle}
use riscv_vibecoded.Rtl.Decoder.Classes.{IsSound, IsQuiet, classes, is_aligned_access}
use riscv_vibecoded.Rtl.Decoder.Action.{
  Action, load, store, csr, ecall, ebreak, illegal, bundle_action,
}
use riscv_vibecoded.Rtl.Core.State.{Core}
use riscv_vibecoded.Rtl.Core.Wires.{alu_result_comb}
use riscv_vibecoded.Rtl.Core.Trap.{
  trap_pending, trap_inst_misalign, trap_mem_mis, trap_illegal_csr, trap_mcause, trap_mtval,
}
use riscv_vibecoded.Rtl.Core.Clock.{is_memory}
use riscv_vibecoded.Prelude.{ℕ, leb, true, false, ◌||◌, ◌≡◌, refl, arith, inl, inr, Bool-cases}

-- The exception code of the privileged architecture for a trap of an instruction.
unfoldable pub cause : Action → ℕ
cause (load funct3 o a b rd) = 4
cause (store funct3 o a b rs2) = 6
cause (csr o immediate addr rs1 rd) = 2
cause ecall = 11
cause ebreak = 3
cause illegal = 2
cause _ = 0

-- mtval holds the address of a load or a store, else 0.
unfoldable pub value : Action → ℕ → ℕ
value (load funct3 o a b rd) addr = addr
value (store funct3 o a b rs2) addr = addr
value _ addr = 0

-- The parts of a trap, by the class of the instruction.
pub misaligned_access : (d : Bundle) (x : Core) → is_memory d ≡ false → trap_mem_mis d x ≡ false
unfolding trap_mem_mis
misaligned_access d x h = ground arith

pub misaligned_target :
    (d : Bundle) (x : Core) → (d.is_branch || d.is_jal) ≡ false → trap_inst_misalign d x ≡ false
unfolding trap_inst_misalign
misaligned_target d x h = ground arith

pub unknown_csr : (d : Bundle) → d.is_csr ≡ false → trap_illegal_csr d ≡ false
unfolding trap_illegal_csr
unknown_csr d h = rw h refl

sound_access :
    (d : Bundle)
    → IsQuiet d
    → d.is_illegal ≡ true
    → is_memory d ≡ true
    → is_aligned_access d.is_load d.lsu_funct3 ≡ false
sound_access d sound h m = ground (arith, sound)

aligned_access :
    (d : Bundle) (x : Core)
    → is_aligned_access d.is_load d.lsu_funct3 ≡ false
    → trap_mem_mis d x ≡ false
unfolding trap_mem_mis
aligned_access d x h = ground arith

illegal_aligned :
    (d : Bundle) (x : Core) → IsQuiet d → d.is_illegal ≡ true → trap_mem_mis d x ≡ false
illegal_aligned d x sound h = elim (Bool-cases (is_memory d)) [
  | inl m ↦ aligned_access d x (sound_access d sound h m)
  | inr m ↦ misaligned_access d x m
]

pub trap-not_mret :
    (d : Bundle) (x : Core) → IsSound d → trap_pending d x ≡ true → d.is_mret ≡ false
unfolding trap_pending
trap-not_mret d x sound h =
    ground (arith, sound, misaligned_access d x, misaligned_target d x, unknown_csr d)

illegal_only :
    (d : Bundle) → IsSound d → d.is_illegal ≡ true → (d.is_ecall ≡ false) × (d.is_ebreak ≡ false)
illegal_only d sound h = (ground (arith, sound), ground (arith, sound))

illegal_cause :
    (d : Bundle) (x : Core)
    → IsSound d
    → IsQuiet d
    → d.is_illegal ≡ true
    → trap_mcause d x ≡ cause (bundle_action d)
unfolding trap_mcause cause bundle_action
illegal_cause d x sound fits h =
    let aligned : trap_mem_mis d x ≡ false = illegal_aligned d x fits h in
    let (no_ecall, no_ebreak) = illegal_only d sound h in
    simp (h, aligned, no_ecall, no_ebreak) refl

legal_cause :
    (d : Bundle) (x : Core)
    → leb (classes d) 1 ≡ true
    → trap_pending d x ≡ true
    → d.is_illegal ≡ false
    → trap_mcause d x ≡ cause (bundle_action d)
unfolding trap_pending trap_mcause cause bundle_action
legal_cause d x one h legal =
    ground (arith, one, misaligned_access d x, misaligned_target d x, unknown_csr d)

pub trap_mcause-cause :
    (d : Bundle) (x : Core)
    → IsSound d
    → IsQuiet d
    → trap_pending d x ≡ true
    → trap_mcause d x ≡ cause (bundle_action d)
trap_mcause-cause d x sound fits h = elim (Bool-cases d.is_illegal) [
  | inl e ↦ illegal_cause d x sound fits e
  | inr e ↦ legal_cause d x (ground (arith, sound)) h e
]

pub trap_mtval-value :
    (d : Bundle) (x : Core)
    → IsSound d
    → IsQuiet d
    → trap_pending d x ≡ true
    → trap_mtval d x ≡ value (bundle_action d) (alu_result_comb d x)
unfolding trap_pending trap_mtval value bundle_action
trap_mtval-value d x sound fits h = ground (
  arith,
  sound,
  misaligned_access d x,
  misaligned_target d x,
  unknown_csr d,
  illegal_aligned d x fits,
)
