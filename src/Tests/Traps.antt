-- ===== src/Tests/Traps.antt =====
-- A trap, its return and a CSR access in rtl/core/rv32i_core.sv on concrete inputs.
use riscv_vibecoded.Rtl.Pkg.{f_idle, csr_rw}
use riscv_vibecoded.Rtl.Decoder.{decoder}
use riscv_vibecoded.Rtl.Decoder.Base.{decode_base, system_insn, environment, csr_insn}
use riscv_vibecoded.Rtl.Decoder.Action.{bundle_action}
use riscv_vibecoded.Rtl.Core.State.{Core, reset}
use riscv_vibecoded.Rtl.Core.Wires.{accepted_word, fetch_word_sel}
use riscv_vibecoded.Rtl.Core.Trap.{trap_pending, trap_inst_misalign, trap_mem_mis, trap_illegal_csr}
use riscv_vibecoded.Rtl.Core.Retire.{cycles, ready}
use riscv_vibecoded.Rtl.Core.Retire.Traps.{Trapped, trap_enters}
use riscv_vibecoded.Rtl.Core.Retire.Returns.{trap_and_return}
use riscv_vibecoded.Rtl.Core.Retire.Access.{Accessed, csr_accesses}
use riscv_vibecoded.Rtl.Core.Widths.Edge.{reset-Fits}
use riscv_vibecoded.Prelude.{ℕ, ◌^◌, true, ◌≡◌, refl}

-- The handler is an mret.
abbrev handler : ℕ → ℕ
handler addr = 0x30200073

abbrev waits_with : ℕ → Core
waits_with word = record reset {
  word_pending = true;
  fetch = record { fetch_phase = f_idle; fetch_pc = 8; word = word; word_pc = 8 };
}

-- ecall
trap_enters_example : Trapped handler (waits_with 0x73) (cycles handler 4 (waits_with 0x73))
unfolding accepted_word fetch_word_sel decoder decode_base system_insn environment trap_pending
    trap_inst_misalign trap_mem_mis trap_illegal_csr
trap_enters_example = trap_enters handler (waits_with 0x73) refl refl

trap_and_return_example :
    (ready (cycles handler 8 (waits_with 0x73)) ≡ true)
    × ((cycles handler 8 (waits_with 0x73)).fetch.word_pc ≡ 8)
    × ((cycles handler 8 (waits_with 0x73)).order ≡ 2)
    × ((cycles handler 8 (waits_with 0x73)).csrs.mstatus ≡ 2 ^ 7)
    × ((r : ℕ) → (cycles handler 8 (waits_with 0x73)).regs r ≡ 0)
unfolding accepted_word fetch_word_sel decoder decode_base system_insn environment trap_pending
    trap_inst_misalign trap_mem_mis trap_illegal_csr
trap_and_return_example = trap_and_return handler (waits_with 0x73) refl refl reset-Fits.csrs refl

-- csrrwi x1, mtvec, 5
csr_accesses_example :
    Accessed csr_rw 0x305 1 5 (waits_with 0x3052D0F3) (cycles handler 4 (waits_with 0x3052D0F3))
unfolding accepted_word fetch_word_sel decoder decode_base system_insn csr_insn trap_pending
    trap_inst_misalign trap_mem_mis trap_illegal_csr bundle_action
csr_accesses_example =
    csr_accesses handler (waits_with 0x3052D0F3) csr_rw true 0x305 0 1 refl refl refl refl
