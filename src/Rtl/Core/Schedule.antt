-- ===== src/Rtl/Core/Schedule.antt =====
-- rtl/core/rv32i_core.sv: the schedule of fetch and execution in every state that clock edges reach
-- from a reset, whatever the memory answers and whenever it does.
use riscv_vibecoded.Rtl.Pkg.{Phase, ph_idle, ph_id, ph_ex, ph_mem, ph_wb}
use riscv_vibecoded.Rtl.Fetch
use riscv_vibecoded.Rtl.Fetch.{requesting}
use riscv_vibecoded.Rtl.Decoder.{decoder}
use riscv_vibecoded.Rtl.Decoder.Outputs.{Bundle}
use riscv_vibecoded.Rtl.Decoder.Classes.{decoder-IsSound, memory_only}
use riscv_vibecoded.Rtl.Core.State.{Core, Response, reset}
use riscv_vibecoded.Rtl.Core.Wires.{accept, branch_taken}
use riscv_vibecoded.Rtl.Core.Trap.{fetch_redirect, trap_pending}
use riscv_vibecoded.Rtl.Core.Clock.{
  clock, edge, is_memory, phase_d, fetch_start, fetch_ports, next_pending,
}
use riscv_vibecoded.Prelude.{
  Bool, true, false, not, ◌&&◌, ◌||◌, ◌≡◌, ◌⊎◌, Bool-cases, inl, inr, refl, arith,
}

-- The states that edges reach from a reset.
pub data Reachable : Core → Type 0 where
  after_reset : Reachable reset
  after_edge : {s : Core} → Reachable s → (r : Response) → Reachable (clock r s)

abbrev one_of : Bool → Bool → Bool
one_of true b = not b
one_of false b = b

-- By phase, from: a word is pending, the fetch unit requests, the instruction is a load or a store,
-- it traps. In PH_IDLE and PH_WB either a word is pending or it is requested. In PH_ID and PH_MEM
-- neither, and PH_MEM has a load or a store that does not trap. In PH_EX the next word is requested
-- unless the instruction is a load or a store.
abbrev pub schedule : Phase → (pending requests memory traps : Bool) → Bool
schedule ph_idle p q m t = one_of p q
schedule ph_id p q m t = not p && not q
schedule ph_ex p q m t = not p && one_of m q
schedule ph_mem p q m t = not p && not q && m && not t
schedule ph_wb p q m t = one_of p q

abbrev pub on_schedule : Core → Bool
on_schedule s =
    schedule s.phase s.word_pending (requesting s.fetch.fetch_phase)
      (is_memory (decoder s.insn_exe)) s.trap_exe

step_idle :
    (r : Response) (s : Core)
    → s.phase ≡ ph_idle
    → on_schedule s ≡ true
    → on_schedule (clock r s) ≡ true
unfolding clock edge phase_d accept next_pending fetch_redirect branch_taken Fetch.word_valid
    Fetch.clock Fetch.capture fetch_ports fetch_start
step_idle r s h on = rw h (ground arith)

step_id :
    (r : Response) (s : Core)
    → s.phase ≡ ph_id
    → on_schedule s ≡ true
    → on_schedule (clock r s) ≡ true
unfolding clock edge phase_d accept next_pending fetch_redirect branch_taken Fetch.word_valid
    Fetch.clock Fetch.capture fetch_ports fetch_start
step_id r s h on = rw h (ground arith)

step_mem :
    (r : Response) (s : Core)
    → s.phase ≡ ph_mem
    → on_schedule s ≡ true
    → on_schedule (clock r s) ≡ true
unfolding clock edge phase_d accept next_pending fetch_redirect branch_taken Fetch.word_valid
    Fetch.clock Fetch.capture fetch_ports fetch_start
step_mem r s h on = rw h (ground arith)

step_wb :
    (r : Response) (s : Core)
    → s.phase ≡ ph_wb
    → on_schedule s ≡ true
    → on_schedule (clock r s) ≡ true
unfolding clock edge phase_d accept next_pending fetch_redirect branch_taken Fetch.word_valid
    Fetch.clock Fetch.capture fetch_ports fetch_start
step_wb r s h on = rw h (ground arith)

-- A load or a store redirects only when it traps.
pub memory_redirect :
    (d : Bundle) (s : Core)
    → s.phase ≡ ph_ex
    → (d.is_branch || d.is_jal || d.is_jalr || d.is_mret) ≡ false
    → fetch_redirect d s ≡ trap_pending d s
unfolding fetch_redirect branch_taken
memory_redirect d s h quiet = rw h (ground arith)

edge_ex :
    (d : Bundle) (r : Response) (s : Core)
    → s.phase ≡ ph_ex
    → (is_memory d ≡ true → (d.is_branch || d.is_jal || d.is_jalr || d.is_mret) ≡ false)
    → schedule ph_ex s.word_pending (requesting s.fetch.fetch_phase) (is_memory d) s.trap_exe ≡ true
    → schedule
        (edge d r s).phase
        (edge d r s).word_pending
        (requesting (edge d r s).fetch.fetch_phase)
        (is_memory d)
        (edge d r s).trap_exe
      ≡ true
unfolding edge phase_d accept next_pending Fetch.word_valid Fetch.clock Fetch.capture fetch_ports
    fetch_start
edge_ex d r s h quiet on = elim (Bool-cases (is_memory d)) [
  | inl m ↦ rw (memory_redirect d s h (quiet m), h) (ground arith)
  | inr m ↦ rw h (ground arith)
]

step_ex :
    (r : Response) (s : Core)
    → s.phase ≡ ph_ex
    → on_schedule s ≡ true
    → on_schedule (clock r s) ≡ true
unfolding clock edge accept
step_ex r s h on =
    let d = decoder s.insn_exe in
    let after = edge_ex d r s h (memory_only d (decoder-IsSound s.insn_exe)) (rw h at on) in
    rw h (rw h at after)

clock-schedule : (r : Response) (s : Core) → on_schedule s ≡ true → on_schedule (clock r s) ≡ true
clock-schedule r s on = by_phase s.phase refl
  where
    by_phase : (p : Phase) → s.phase ≡ p → on_schedule (clock r s) ≡ true
    by_phase ph_idle h = step_idle r s h on
    by_phase ph_id h = step_id r s h on
    by_phase ph_ex h = step_ex r s h on
    by_phase ph_mem h = step_mem r s h on
    by_phase ph_wb h = step_wb r s h on

reset-schedule : (r : Response) → on_schedule (clock r reset) ≡ true
unfolding clock edge phase_d accept next_pending fetch_redirect branch_taken Fetch.word_valid
    Fetch.clock Fetch.capture fetch_ports fetch_start
reset-schedule r = ground arith

-- Every state that clock edges reach from a reset, with any answers of the memory, is the reset
-- state or on schedule.
pub Reachable-schedule : (s : Core) → Reachable s → (s ≡ reset) ⊎ (on_schedule s ≡ true)
Reachable-schedule _ after_reset = inl refl
Reachable-schedule _ (after_edge {s} from r) = elim (Reachable-schedule s from) [
  | inl h ↦ inr (rw h (reset-schedule r))
  | inr h ↦ inr (clock-schedule r s h)
]
