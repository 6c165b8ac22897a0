-- ===== src/Rtl/Core/Retire/Accept.antt =====
-- rtl/core/rv32i_core.sv: PH_IDLE and PH_ID of the word that waits.
use riscv_vibecoded.Rtl.Core.Retire.{answer, cycle, cycles, operands}
use riscv_vibecoded.Rtl.Pkg.{ph_idle, ph_id, f_idle}
use riscv_vibecoded.Rtl.Decoder.{decoder}
use riscv_vibecoded.Rtl.Core.State.{Core}
use riscv_vibecoded.Rtl.Core.Wires.{accepted_word, seq_pc}
use riscv_vibecoded.Rtl.Core.Clock.{clock}
use riscv_vibecoded.Rtl.Core.Stages.{tick, idle_edge, id_edge}
use riscv_vibecoded.Prelude.{ℕ, true, false, ◌≡◌, refl}

-- PH_ID of the word that waits.
unfoldable pub accepted : Core → Core
accepted s = record s {
  phase = ph_id;
  pc_exe = s.fetch.word_pc;
  insn_exe = accepted_word s;
  word_pending = false;
  csrs = tick s.csrs;
}

pub cycle_idle :
    (memory : ℕ → ℕ) (s : Core)
    → s.phase ≡ ph_idle
    → s.word_pending ≡ true
    → s.fetch.fetch_phase ≡ f_idle
    → cycle memory s ≡ accepted s
unfolding cycle clock accepted
cycle_idle memory s h p q = idle_edge (decoder s.insn_exe) (answer memory s) s h p q

pub cycle_id :
    (memory : ℕ → ℕ) (s : Core)
    → s.fetch.fetch_phase ≡ f_idle
    → cycle memory (accepted s) ≡ operands (decoder (accepted_word s)) s
unfolding cycle clock operands accepted seq_pc
cycle_id memory s q =
    id_edge (decoder (accepted_word s)) (answer memory (accepted s)) (accepted s) refl refl q

pub two_cycles :
    (memory : ℕ → ℕ) (s : Core)
    → s.phase ≡ ph_idle
    → s.word_pending ≡ true
    → s.fetch.fetch_phase ≡ f_idle
    → cycles memory 2 s ≡ operands (decoder (accepted_word s)) s
unfolding cycles
two_cycles memory s h p q = rw (cycle_idle memory s h p q) (cycle_id memory s q)
