-- ===== src/Rtl/Core/Safety.antt =====
-- rtl/core/rv32i_core.sv: what never happens in a state that clock edges reach from a reset.
use riscv_vibecoded.Rtl.Pkg.{Phase, ph_idle, ph_id, ph_ex, ph_mem, ph_wb}
use riscv_vibecoded.Rtl.Regfile
use riscv_vibecoded.Rtl.Fetch.{requesting}
use riscv_vibecoded.Rtl.Decoder.{decoder}
use riscv_vibecoded.Rtl.Core.State.{Core, Response, reset, phase_code}
use riscv_vibecoded.Rtl.Decoder.Outputs.{Bundle}
use riscv_vibecoded.Rtl.Core.Clock.{edge, is_memory, write_port, reg_we, csr_ports, csr_we}
use riscv_vibecoded.Rtl.Core.Outputs.{request}
use riscv_vibecoded.Rtl.Core.Schedule.{Reachable, Reachable-schedule, schedule}
use riscv_vibecoded.Prelude.{ℕ, Bool, true, false, ◌==◌, ◌&&◌, ◌≡◌, inl, inr, arith, ap}

mem_is_exclusive :
    (p : Phase) (w q m t stores : Bool)
    → (phase_code p == phase_code ph_mem && stores) ≡ true
    → schedule p w q m t ≡ true
    → (stores ≡ true) × (t ≡ false) × (q ≡ false)
mem_is_exclusive ph_idle w q m t stores mem on = absurd (ground arith)
mem_is_exclusive ph_id w q m t stores mem on = absurd (ground arith)
mem_is_exclusive ph_ex w q m t stores mem on = absurd (ground arith)
mem_is_exclusive ph_mem w q m t stores mem on = (ground arith, ground arith, ground arith)
mem_is_exclusive ph_wb w q m t stores mem on = absurd (ground arith)

reset_asks_nothing : (s : Core) → s ≡ reset → (request s).req_we ≡ true → ⊥
unfolding request
reset_asks_nothing s h writes =
    let none : (request s).req_we ≡ false = ap (λ (t : Core). (request t).req_we) h in
    absurd (ground arith)

-- In a reachable state the memory is asked to write only for a store that does not trap, and while
-- the fetch unit asks for nothing.
pub write_requests :
    (s : Core)
    → Reachable s
    → (request s).req_we ≡ true
    → ((decoder s.insn_exe).is_store ≡ true)
      × (s.trap_exe ≡ false)
      × (requesting s.fetch.fetch_phase ≡ false)
unfolding request
write_requests s from writes = elim (Reachable-schedule s from) [
  | inl h ↦ absurd (reset_asks_nothing s h writes)
  | inr h ↦
      mem_is_exclusive s.phase s.word_pending (requesting s.fetch.fetch_phase)
        (is_memory (decoder s.insn_exe)) s.trap_exe (decoder s.insn_exe).is_store writes h
]

-- A trap in PH_WB leaves the registers as they are, whatever the instruction, and no CSR instruction
-- writes in that edge.
pub trap_writes_nothing :
    (d : Bundle) (r : Response) (s : Core)
    → s.trap_exe ≡ true
    → ((i : ℕ) → (edge d r s).regs i ≡ s.regs i) × ((csr_ports d s).csr_we ≡ false)
unfolding edge write_port reg_we csr_ports csr_we Regfile.clock
trap_writes_nothing d r s h = ((λ i. ground arith), ground arith)
