-- ===== src/Tests/Rtl.antt =====
-- The modules of rtl/core on concrete inputs.
use riscv_vibecoded.Isa.Fields.{imm_i, imm_b, imm_s}
use riscv_vibecoded.Isa.Insn.{op_imm, branch_if, decode, decode32, bytes}
use riscv_vibecoded.Rtl.Pkg.{f_idle, signed, alu_add, alu_sub, alu_sra, alu_slt}
use riscv_vibecoded.Rtl.Alu
use riscv_vibecoded.Rtl.Alu.{result}
use riscv_vibecoded.Rtl.Alu.Bounds.{result-signed}
use riscv_vibecoded.Rtl.Lsu.{load_lanes}
use riscv_vibecoded.Rtl.Lsu.RoundTrip.{stored, load_lanes-store_lanes}
use riscv_vibecoded.Rtl.Regfile
use riscv_vibecoded.Rtl.Fetch
use riscv_vibecoded.Rtl.Decoder.{decoder}
use riscv_vibecoded.Rtl.Decoder.Base.{decode_base, branch_insn, store_insn}
use riscv_vibecoded.Rtl.Decoder.Classes.{IsConsistent, decoder-IsConsistent}
use riscv_vibecoded.Rtl.Decoder.Action.{bundle_action, insn_action}
use riscv_vibecoded.Rtl.Decoder.Base16.{decoder-Performs}
use riscv_vibecoded.Rtl.Core.State.{Core, Response, reset}
use riscv_vibecoded.Rtl.Core.Wires.{
  accepted_word, fetch_word_sel, accept, branch_target, branch_taken, alu_a, alu_b,
}
use riscv_vibecoded.Rtl.Core.Trap.{
  trap_pending, trap_inst_misalign, trap_mem_mis, trap_illegal_csr, fetch_redirect,
}
use riscv_vibecoded.Rtl.Core.Clock.{clock, edge, phase_d, next_pending, fetch_ports, fetch_start}
use riscv_vibecoded.Rtl.Core.Outputs.{Request, request}
use riscv_vibecoded.Rtl.Core.Schedule.{
  Reachable, after_reset, after_edge, Reachable-schedule, on_schedule,
}
use riscv_vibecoded.Rtl.Core.Widths.{Fits}
use riscv_vibecoded.Rtl.Core.Widths.Edge.{responses, responses-Fits}
use riscv_vibecoded.Rtl.Core.Safety.{write_requests}
use riscv_vibecoded.Rtl.Core.Retire.{cycles, ready, operands, Retired}
use riscv_vibecoded.Rtl.Core.Retire.Run.{waiting, executing, latency, ready-Retired}
use riscv_vibecoded.Rtl.Core.Retire.Reset.{Progress, retires_from_reset}
use riscv_vibecoded.Rtl.Core.Effect.{Effect as Outcome, value_of}
use riscv_vibecoded.Rtl.Core.Retire.Ram.{System, run}
use riscv_vibecoded.Rtl.Core.Effect.Stores.{Stores, ram_write, store_executes}
use riscv_vibecoded.Rtl.Core.Effect.Meaning.{insn_meaning}
use riscv_vibecoded.Py.Int.{◌+ℤ◌, ◌-ℤ◌, ◌>>ℤ◌, ltb_ℤ}
use riscv_vibecoded.Py.Int.Mask.{low32}
use riscv_vibecoded.Prelude.{
  ℕ, [], ◌∷◌, ◌≤◌, ◌+◌, ◌*◌, true, false, ◌≡◌, ◌⊎◌, refl, arith, ◌==◌, if◌then◌else◌,
}

-- addi x1, x0, 5 at 0, and c.addi x1, 1 twice in the word after it.
abbrev memory : ℕ → ℕ
memory addr = if addr == 0 then 0x00500093 else 0x00850085

-- The first word waits.
abbrev waits_for_addi : Core
waits_for_addi = record reset {
  word_pending = true;
  fetch = record { fetch_phase = f_idle; fetch_pc = 0; word = 0x00500093; word_pc = 0 };
}

-- blt x1, x2, 8 at 0, with -1 in x1 and 1 in x2.
abbrev waits_for_blt : Core
waits_for_blt = record waits_for_addi {
  fetch = record { fetch_phase = f_idle; fetch_pc = 0; word = 0x0020C463; word_pc = 0 };
  regs = λ r. if r == 1 then 0xFFFFFFFF else if r == 2 then 1 else 0;
}

abbrev goes_to_8 : Outcome
goes_to_8 = record { rd = 0; value = 0; next = 8 }

insn_meaning_example :
    (ready (cycles memory (latency waits_for_blt) waits_for_blt) ≡ true)
    × ((cycles memory (latency waits_for_blt) waits_for_blt).fetch.word_pc ≡ 8)
    × ((r : ℕ)
        → (cycles memory (latency waits_for_blt) waits_for_blt).regs r ≡ waits_for_blt.regs r)
unfolding decode decode32 bytes accepted_word fetch_word_sel decoder decode_base branch_insn
    trap_pending trap_inst_misalign trap_mem_mis trap_illegal_csr insn_action value_of imm_b
    branch_target branch_taken alu_a alu_b Alu.branch_taken signed Regfile.read operands
insn_meaning_example =
    insn_meaning memory waits_for_blt (branch_if 4 1 2 8) goes_to_8 refl refl refl refl

ready-Retired_example :
    Retired memory
      (waiting waits_for_addi)
      (executing waits_for_addi)
      (cycles memory (latency waits_for_addi) waits_for_addi)
ready-Retired_example = ready-Retired memory waits_for_addi refl

-- A memory of words without byte enables.
abbrev write_word : Request → (ℕ → ℕ) → ℕ → ℕ
write_word r words addr = if addr == r.req_addr then r.req_wdata else words addr

-- sw x0, 0(x0) in every word: the first one overwrites itself.
abbrev all_stores : ℕ → ℕ
all_stores addr = 0x00002023

retires_from_reset_example : (k : ℕ) × (k ≤ 2 + 5 * 3) × Progress write_word all_stores 3 k
retires_from_reset_example = retires_from_reset write_word all_stores 3

decoder-Performs_example : bundle_action (decoder 0x00500093) ≡ insn_action (op_imm 0 0 1 5)
unfolding decode decode32 imm_i
decoder-Performs_example = decoder-Performs 0x00500093

decoder-IsConsistent_example : IsConsistent (decoder 0x00500093)
decoder-IsConsistent_example = decoder-IsConsistent 0x00500093

-- A memory that answers in every cycle with sb x0, 0(x0).
abbrev always_store : Response
always_store = record { rsp_valid = true; rsp_rdata = 0x00000023 }

abbrev in_memory_phase : Core
in_memory_phase =
    clock always_store
      (clock always_store (clock always_store (clock always_store (clock always_store reset))))

abbrev in_memory_phase-Reachable : Reachable in_memory_phase
in_memory_phase-Reachable =
    after_edge
      (after_edge
        (after_edge (after_edge (after_edge after_reset always_store) always_store) always_store)
        always_store)
      always_store

Reachable-schedule_example : (in_memory_phase ≡ reset) ⊎ (on_schedule in_memory_phase ≡ true)
Reachable-schedule_example = Reachable-schedule in_memory_phase in_memory_phase-Reachable

write_requests_example :
    ((decoder in_memory_phase.insn_exe).is_store ≡ true)
    × (in_memory_phase.trap_exe ≡ false)
    × (Fetch.requesting in_memory_phase.fetch.fetch_phase ≡ false)
unfolding clock edge phase_d accept accepted_word fetch_word_sel next_pending fetch_redirect
    fetch_ports fetch_start Fetch.clock Fetch.capture Fetch.word_valid decoder decode_base
    store_insn trap_pending trap_inst_misalign trap_mem_mis trap_illegal_csr request
write_requests_example = write_requests in_memory_phase in_memory_phase-Reachable refl

-- sb x1, 6(x2) at 0, with 0xABCD in x1 and 3 in x2: the byte at 9.
abbrev waits_for_sb : System
waits_for_sb = record {
  memory = memory;
  core = record waits_for_addi {
    fetch = record { fetch_phase = f_idle; fetch_pc = 0; word = 0x00110323; word_pc = 0 };
    regs = λ r. if r == 1 then 0xABCD else if r == 2 then 3 else 0;
  };
}

store_executes_example :
    Stores 0 2 1 6 4 waits_for_sb (run ram_write (latency waits_for_sb.core) waits_for_sb)
unfolding decode decode32 bytes accepted_word fetch_word_sel decoder decode_base store_insn
    trap_pending trap_inst_misalign trap_mem_mis trap_illegal_csr imm_s operands
store_executes_example = store_executes waits_for_sb 0 2 1 6 refl refl refl (λ r. ground arith)

load_lanes-store_lanes_example :
    (load_lanes 6 1 (stored 6 1 0x8123 0x11223344)).rd_data ≡ 0xFFFF8123
load_lanes-store_lanes_example =
    load_lanes-store_lanes 6 1 0x8123 0x11223344 (omega arith) refl (omega arith)

responses-Fits_example : Fits (responses (always_store ∷ always_store ∷ []))
responses-Fits_example =
    responses-Fits (always_store ∷ always_store ∷ []) (omega arith, (omega arith, tt))

result-signed_example :
    (result alu_add 0xFFFFFFF0 4 ≡ low32 (signed 0xFFFFFFF0 +ℤ signed 4))
    × (result alu_sub 0xFFFFFFF0 4 ≡ low32 (signed 0xFFFFFFF0 -ℤ signed 4))
    × (signed (result alu_sra 0xFFFFFFF0 4) ≡ signed 0xFFFFFFF0 >>ℤ 4)
    × (result alu_slt 0xFFFFFFF0 4 ≡ (if ltb_ℤ (signed 0xFFFFFFF0) (signed 4) then 1 else 0))
result-signed_example = result-signed 0xFFFFFFF0 4 (omega arith) (omega arith)
