-- ===== src/Rtl/Core/Trap.antt =====
-- rtl/core/rv32i_core.sv: what traps, its cause and value, and where the next fetch goes.
use riscv_vibecoded.Rtl.Pkg.{ph_ex, complement}
use riscv_vibecoded.Rtl.Decoder.Outputs.{Bundle}
use riscv_vibecoded.Rtl.Core.State.{Core, in_phase}
use riscv_vibecoded.Rtl.Core.Wires.{alu_result_comb, branch_target, branch_taken}
use riscv_vibecoded.Isa.Fields.{slice, bit}
use riscv_vibecoded.Prelude.{ℕ, bit_and, Bool, false, not, ◌==◌, ◌&&◌, ◌||◌, if◌then◌else◌}

unfoldable pub trap_inst_misalign : Bundle → Core → Bool
trap_inst_misalign d s = (d.is_branch || (d.is_jal && not d.is_c)) && bit 0 (branch_target d s) == 1

unfoldable pub trap_mem_mis : Bundle → Core → Bool
trap_mem_mis d s =
    let addr = alu_result_comb d s in
    let funct3 = d.lsu_funct3 in
    if d.is_load
    then (if funct3 == 0b001 || funct3 == 0b101
        then bit 0 addr == 1
        else if funct3 == 0b010
        then not (slice 1 0 addr == 0)
        else false)
    else if d.is_store
    then (if funct3 == 0b001
        then bit 0 addr == 1
        else if funct3 == 0b010
        then not (slice 1 0 addr == 0)
        else false)
    else false

unfoldable pub trap_illegal_csr : Bundle → Bool
trap_illegal_csr d =
    d.is_csr
    && not (d.csr_addr == 0x300)
    && not (d.csr_addr == 0x305)
    && not (d.csr_addr == 0x341)
    && not (d.csr_addr == 0x342)
    && not (d.csr_addr == 0x343)
    && not (d.csr_addr == 0xB00)
    && not (d.csr_addr == 0xB80)

unfoldable pub trap_pending : Bundle → Core → Bool
trap_pending d s =
    trap_inst_misalign d s
    || d.is_illegal
    || d.is_ebreak
    || trap_mem_mis d s
    || d.is_ecall
    || trap_illegal_csr d

-- The last assignment that applies.
unfoldable pub trap_mcause : Bundle → Core → ℕ
trap_mcause d s =
    if d.is_ecall
    then 11
    else if trap_mem_mis d s
    then (if d.is_load then 4 else 6)
    else if d.is_ebreak
    then 3
    else if d.is_illegal || trap_illegal_csr d
    then 2
    else 0

unfoldable pub trap_mtval : Bundle → Core → ℕ
trap_mtval d s = if trap_mem_mis d s then alu_result_comb d s else 0

-- mtvec_val & ~32'h3
abbrev pub trap_vector : Core → ℕ
trap_vector s = bit_and s.csrs.mtvec (complement 3)

unfoldable pub fetch_redirect : Bundle → Core → Bool
fetch_redirect d s =
    in_phase ph_ex s && (branch_taken d s || d.is_jal || d.is_jalr || trap_pending d s || d.is_mret)

unfoldable pub redirect_target : Bundle → Core → ℕ
redirect_target d s =
    if trap_pending d s then trap_vector s else if d.is_mret then s.csrs.mepc else branch_target d s
