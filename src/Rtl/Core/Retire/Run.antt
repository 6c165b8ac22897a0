-- ===== src/Rtl/Core/Retire/Run.antt =====
-- rtl/core/rv32i_core.sv with a memory that answers at once: every instruction retires, in four
-- cycles or in five.
use native.Mathlib.Nat.{zero-add, suc-add}
use riscv_vibecoded.Rtl.Pkg.{Phase, ph_idle, ph_id, ph_ex, ph_mem, ph_wb, FetchPhase, f_idle, f_req}
use riscv_vibecoded.Rtl.Fetch.{requesting}
use riscv_vibecoded.Rtl.Decoder.{decoder}
use riscv_vibecoded.Rtl.Decoder.Outputs.{Bundle}
use riscv_vibecoded.Rtl.Decoder.Classes.{IsSound, decoder-IsSound, memory_only}
use riscv_vibecoded.Rtl.Core.Schedule.{memory_redirect}
use riscv_vibecoded.Rtl.Core.State.{Core, phase_code}
use riscv_vibecoded.Rtl.Core.Wires.{accepted_word, seq_pc}
use riscv_vibecoded.Rtl.Core.Trap.{trap_pending, fetch_redirect}
use riscv_vibecoded.Rtl.Core.Clock.{is_memory}
use riscv_vibecoded.Rtl.Core.Retire.Accept.{two_cycles}
use riscv_vibecoded.Rtl.Core.Retire.Phases.{redirect_retires, sequential_retires, memory_retires}
use riscv_vibecoded.Rtl.Core.Retire.{cycle, cycles, ready, operands, Retired}
use riscv_vibecoded.Prelude.{
  ℕ, zero, suc, ◌+◌, ◌≤◌, Bool, true, false, not, ◌==◌, ◌&&◌, if◌then◌else◌, ◌≡◌, refl, arith, sym,
  ◌∙◌, inl, inr, Bool-cases,
}

-- The word that waits, decoded, and the state in which it is in PH_EX.
abbrev pub waiting : Core → Bundle
waiting s = decoder (accepted_word s)

abbrev pub executing : Core → Core
executing s = operands (waiting s) s

-- The cycles from its acceptance to the next one.
unfoldable pub latency : Core → ℕ
latency s = if is_memory (waiting s) && not (trap_pending (waiting s) (executing s)) then 5 else 4

pub is_idle : (p : Phase) → (phase_code p == phase_code ph_idle) ≡ true → p ≡ ph_idle
is_idle ph_idle h = refl
is_idle ph_id h = absurd (ground arith)
is_idle ph_ex h = absurd (ground arith)
is_idle ph_mem h = absurd (ground arith)
is_idle ph_wb h = absurd (ground arith)

pub is_f_idle : (p : FetchPhase) → requesting p ≡ false → p ≡ f_idle
is_f_idle f_idle h = refl
is_f_idle f_req h = absurd (ground arith)

-- From PH_EX, where the successor is requested unless the instruction is a load or a store.
retires_from_ex :
    (memory : ℕ → ℕ) (d : Bundle) (x : Core)
    → decoder x.insn_exe ≡ d
    → IsSound d
    → x.phase ≡ ph_ex
    → x.word_pending ≡ false
    → (is_memory d ≡ true → x.fetch.fetch_phase ≡ f_idle)
    → (is_memory d ≡ false → x.fetch.fetch_phase ≡ f_req)
    → (is_memory d ≡ false → x.fetch.fetch_pc ≡ seq_pc d x)
    → Retired memory d x (cycles memory (if is_memory d && not (trap_pending d x) then 3 else 2) x)
retires_from_ex memory d x hd sound h p idle req pc =
    elim (Bool-cases (is_memory d && not (trap_pending d x))) [
      | inl m ↦
          let is_mem : is_memory d ≡ true = ground arith in
          rw m (
            unfold cycles in
            memory_retires memory memory d x hd sound h m p (idle is_mem) (λ l. refl))
      | inr m ↦ elim (Bool-cases (fetch_redirect d x)) [
        | inl red ↦ rw m (redirect_retires memory d x hd h red m)
        | inr red ↦
            let no_mem : is_memory d ≡ false = falls_through d x sound h m red in
            rw m (sequential_retires memory d x hd h red no_mem (req no_mem) (pc no_mem))
      ]
    ]
  where
    falls_through :
        (d : Bundle) (x : Core)
        → IsSound d
        → x.phase ≡ ph_ex
        → (is_memory d && not (trap_pending d x)) ≡ false
        → fetch_redirect d x ≡ false
        → is_memory d ≡ false
    falls_through d x sound h m red = elim (Bool-cases (is_memory d)) [
      | inl is_mem ↦
          let trapped : trap_pending d x ≡ false =
            sym (memory_redirect d x h (memory_only d sound is_mem)) ∙ red in
          absurd (ground arith)
      | inr no_mem ↦ no_mem
    ]

operands_retire :
    (memory : ℕ → ℕ) (d : Bundle) (s : Core)
    → decoder (accepted_word s) ≡ d
    → IsSound d
    → s.fetch.fetch_phase ≡ f_idle
    → Retired memory d (operands d s) (
        cycles memory
          (if is_memory d && not (trap_pending d (operands d s)) then 3 else 2)
          (operands d s))
unfolding operands seq_pc
operands_retire memory d s hd sound q =
    retires_from_ex memory d (operands d s) hd sound refl refl (λ m. rw (m, q) refl)
      (λ m. rw m refl) (λ m. rw m refl)

latency_split :
    (memory : ℕ → ℕ) (b : Bool) (s : Core)
    → cycles memory (if b then 5 else 4) s ≡ cycles memory (if b then 3 else 2) (cycles memory 2 s)
unfolding cycles
latency_split memory true s = refl
latency_split memory false s = refl

-- From every state of the core in which a word waits, with a memory that answers in the cycle of
-- the request: after five cycles for a load or a store that does not trap, after four for any other
-- word, the next word waits, at the address that the instruction goes on with; the retired count is
-- one higher, the register file has the instruction's write, or none if it traps, and the CSR file
-- has taken the write of a CSR access, the trap, or the return that the instruction stands for.
pub ready-Retired :
    (memory : ℕ → ℕ) (s : Core)
    → ready s ≡ true
    → Retired memory (waiting s) (executing s) (cycles memory (latency s) s)
unfolding latency
ready-Retired memory s h =
    let idle : s.phase ≡ ph_idle = is_idle s.phase (ground arith) in
    let pending : s.word_pending ≡ true = ground arith in
    let quiet : s.fetch.fetch_phase ≡ f_idle = is_f_idle s.fetch.fetch_phase (ground arith) in
    rw
      (
        latency_split memory (is_memory (waiting s) && not (trap_pending (waiting s) (executing s)))
            s,
        two_cycles memory s idle pending quiet,
      )
      (operands_retire memory (waiting s) s refl (decoder-IsSound (accepted_word s)) quiet)

pub cycles_add :
    (memory : ℕ → ℕ) (k n : ℕ) (s : Core)
    → cycles memory (k + n) s ≡ cycles memory n (cycles memory k s)
unfolding cycles
cycles_add memory zero n s = rw (zero-add n) refl
cycles_add memory (suc k) n s = rw (suc-add k n) (cycles_add memory k n (cycle memory s))

pub latency-le : (s : Core) → latency s ≤ 5
unfolding latency
latency-le s = ground arith
