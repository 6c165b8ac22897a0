-- ===== src/Tests/Beside.antt =====
-- The emulator and the core side by side on a loop.
use riscv_vibecoded.Emulator.{Entry, State}
use riscv_vibecoded.Isa.Fields.{imm_i, c_imm_sext6, c_imm_cb}
use riscv_vibecoded.Isa.Insn.{decode, decode32, decode16, decode_quad1}
use riscv_vibecoded.Rtl.Pkg.{f_idle}
use riscv_vibecoded.Rtl.Regfile
use riscv_vibecoded.Rtl.Decoder.Action.{insn_action, immediate_operation, operation}
use riscv_vibecoded.Rtl.Core.State.{Core, reset}
use riscv_vibecoded.Rtl.Core.Retire.{cycles}
use riscv_vibecoded.Rtl.Core.Effect.Quiet.{uses_registers}
use riscv_vibecoded.Rtl.Core.Effect.Registers.{Matches}
use riscv_vibecoded.Rtl.Core.Effect.Programs.{RunsAt, Follows, emulate-cycles}
use riscv_vibecoded.Py.Int.{pos}
use riscv_vibecoded.Py.Seq.{eq_ok-item}
use riscv_vibecoded.Prelude.{
  ℕ, zero, suc, ◌<◌, ◌==◌, if◌then◌else◌, true, some, [], All, get_elem?, ◌≡◌, refl, arith,
}
use riscv_vibecoded.Tests.Emulation.{zeros}
use riscv_vibecoded.Tests.Machine.{
  countdown, countdown-MadeAt, countdown_runs, shown, after, zeros-WellFormed,
}

-- The words of countdown: addi x8, x0, 5, and the two compressed ones.
abbrev image : ℕ → ℕ
image addr = if addr == 0 then 0x00500413 else 0xFC7D147D

abbrev waits : Core
waits = record reset {
  word_pending = true;
  fetch = record { fetch_phase = f_idle; fetch_pc = 0; word = 0x00500413; word_pc = 0 };
}

abbrev start : State
start = record { regs = zeros 32; mem = []; pc = pos 0 }

get_elem?-zeros : (n r : ℕ) → r < n → get_elem? (zeros n) r ≡ some (pos 0)
get_elem?-zeros zero r h = absurd (ground arith)
get_elem?-zeros (suc n) zero h = refl
get_elem?-zeros (suc n) (suc r) h = get_elem?-zeros n r (omega arith)

start-Matches : Matches start 0 Regfile.reset
start-Matches = record {
  full = refl;
  registers = λ r h. eq_ok-item (zeros 32) r (pos 0) h (get_elem?-zeros 32 r h);
  words = λ r. omega arith;
  zero_register = refl;
  counter = refl;
}

countdown-RunsAt : All (λ (e : Entry). RunsAt image e.addr e) countdown
unfolding decode decode32 decode16 decode_quad1 imm_i c_imm_sext6 c_imm_cb insn_action
    immediate_operation operation uses_registers
countdown-RunsAt =
    let all = countdown-MadeAt in
    (
      (all.0, (refl, omega arith, refl, refl)),
      (
        (all.1.0, (refl, omega arith, refl, refl)),
        ((all.1.1.0, (refl, omega arith, refl, refl)), tt),
      ),
    )

emulate-cycles_example : Follows image after (cycles image 24 waits)
emulate-cycles_example =
    emulate-cycles image waits countdown (zeros 32) [] (pos 0) (pos 0) (pos 6) shown after
      countdown-RunsAt zeros-WellFormed
      record { waits = refl; fetched = refl; agrees = start-Matches } countdown_runs
