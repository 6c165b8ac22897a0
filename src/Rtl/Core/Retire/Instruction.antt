-- ===== src/Rtl/Core/Retire/Instruction.antt =====
-- rtl/core/rv32i_core.sv with a memory that answers at once and takes the writes: an instruction from
-- the word that waits to the next one, whatever a write does to the memory.
use riscv_vibecoded.Rtl.Pkg.{ph_idle, ph_id, ph_ex, ph_mem, ph_wb, f_idle}
use riscv_vibecoded.Rtl.Decoder.{decoder}
use riscv_vibecoded.Rtl.Decoder.Classes.{load_only, decoder-IsSound}
use riscv_vibecoded.Rtl.Core.State.{Core}
use riscv_vibecoded.Rtl.Core.Wires.{accepted_word}
use riscv_vibecoded.Rtl.Core.Outputs.{Request, request}
use riscv_vibecoded.Rtl.Core.Trap.{trap_pending}
use riscv_vibecoded.Rtl.Core.Clock.{is_memory}
use riscv_vibecoded.Rtl.Core.Retire.{cycle, cycles, ready, operands, Retired}
use riscv_vibecoded.Rtl.Core.Retire.Accept.{accepted, cycle_idle, cycle_id}
use riscv_vibecoded.Rtl.Core.Retire.Phases.{memory_retires}
use riscv_vibecoded.Rtl.Core.Retire.Run.{
  waiting, executing, latency, ready-Retired, is_idle, is_f_idle,
}
use riscv_vibecoded.Rtl.Core.Retire.Ram.{
  System, phase_after_ex, phase_after_mem, insn_after_ex, store_request, request_after_ex,
  next_memory, system_cycle, run, retired, silent_cycle, in_four, in_five,
}
use riscv_vibecoded.Prelude.{
  ℕ, Bool, true, false, not, ◌&&◌, if◌then◌else◌, ◌≡◌, refl, arith, ap, subst, ◌∙◌, inl, inr,
  Bool-cases,
}

-- What the memory does with a write request.
module _ (written : Request → (ℕ → ℕ) → ℕ → ℕ) where
  -- The cycles of the word that waits in s, to t: it is retired in one of them, with the words of the
  -- memory as they are then.
  pub record Instruction (s t : System) : Type 0 where
    pub effects : Retired t.memory (waiting s.core) (executing s.core) t.core
    pub once : retired written (latency s.core) s ≡ 1
    pub kept : (waiting s.core).is_store ≡ false → t.memory ≡ s.memory
    pub stored :
        (waiting s.core).is_store ≡ true
        → trap_pending (waiting s.core) (executing s.core) ≡ false
        → t.memory ≡ written (store_request (waiting s.core) (executing s.core)) s.memory

  goes_to_memory : Core → Bool
  goes_to_memory c = is_memory (waiting c) && not (trap_pending (waiting c) (executing c))

  latency_lem : (c : Core) (b : Bool) → goes_to_memory c ≡ b → latency c ≡ (if b then 5 else 4)
  unfolding goes_to_memory latency
  latency_lem c b h = rw h refl

  finish :
      (s t : System) (k : ℕ)
      → latency s.core ≡ k
      → (run written k s ≡ t) × (retired written k s ≡ 1)
      → Retired t.memory (waiting s.core) (executing s.core) t.core
      → ((waiting s.core).is_store ≡ false → t.memory ≡ s.memory)
      → ((waiting s.core).is_store ≡ true
          → trap_pending (waiting s.core) (executing s.core) ≡ false
          → t.memory ≡ written (store_request (waiting s.core) (executing s.core)) s.memory)
      → Instruction s (run written (latency s.core) s)
  finish s t k takes ran done kept stored =
      rw (takes, ran.0)
        record {
          effects = done;
          once = ap (λ (j : ℕ). retired written j s) takes ∙ ran.1;
          kept = kept;
          stored = stored;
        }

  plain_retires :
      (s : System)
      → ready s.core ≡ true
      → goes_to_memory s.core ≡ false
      → s.core.phase ≡ ph_idle
      → s.core.word_pending ≡ true
      → s.core.fetch.fetch_phase ≡ f_idle
      → Instruction s (run written (latency s.core) s)
  unfolding goes_to_memory accepted operands cycles
  plain_retires s h plain idle pending quiet =
      let m = s.memory in
      let c = s.core in
      let x = executing c in
      let y = cycle m x in
      let e = cycle_idle m c idle pending quiet in
      let e1 = cycle_id m c quiet in
      let at_y : y.phase ≡ ph_wb = phase_after_ex m x refl ∙ rw plain refl in
      let ran =
        in_four written s (record { core = accepted c; memory = m })
          (record { core = x; memory = m }) (record { core = y; memory = m })
          (record { core = cycle m y; memory = m }) idle refl refl at_y
          (silent_cycle written c (accepted c) m ph_idle idle refl e)
          (silent_cycle written (accepted c) x m ph_id refl refl e1)
          (silent_cycle written x y m ph_ex refl refl refl)
          (silent_cycle written y (cycle m y) m ph_wb at_y refl refl) in
      let same : cycles m 4 c ≡ cycle m y = rw (e, e1) refl in
      let takes : latency c ≡ 4 = latency_lem c false plain in
      let done : Retired m (waiting c) x (cycles m 4 c) =
        subst (λ (k : ℕ). Retired m (waiting c) x (cycles m k c)) takes (ready-Retired m c h) in
      finish s (record { core = cycle m y; memory = m }) 4 takes ran
        (subst (λ (t : Core). Retired m (waiting c) x t) same done) (λ no_store. refl)
        (λ store quiet'. absurd (ground (arith, plain)))

  no_store_in :
      (c : Core) (memory : ℕ → ℕ)
      → (decoder c.insn_exe).is_store ≡ false
      → next_memory written c memory ≡ memory
  unfolding next_memory request
  no_store_in c memory h = rw h (ground arith)

  access_retires :
      (s : System)
      → goes_to_memory s.core ≡ true
      → s.core.phase ≡ ph_idle
      → s.core.word_pending ≡ true
      → s.core.fetch.fetch_phase ≡ f_idle
      → Instruction s (run written (latency s.core) s)
  unfolding goes_to_memory accepted operands cycles
  access_retires s access idle pending quiet =
      let m = s.memory in
      let c = s.core in
      let x = executing c in
      let y = cycle m x in
      let z = cycle m y in
      let m' = next_memory written y m in
      let at_y : y.phase ≡ ph_mem = phase_after_ex m x refl ∙ rw access refl in
      let at_z : z.phase ≡ ph_wb = phase_after_mem m y at_y in
      let insn : y.insn_exe ≡ accepted_word c = insn_after_ex m x refl in
      let unwritten : (waiting c).is_store ≡ false → m' ≡ m =
        λ no_store. no_store_in y m (ap (λ (w : ℕ). (decoder w).is_store) insn ∙ no_store) in
      let sound = decoder-IsSound (accepted_word c) in
      let is_mem : is_memory (waiting c) ≡ true = ground (arith, access) in
      finish s (record { core = cycle m' z; memory = m' }) 5 (latency_lem c true access)
        (in_five written s (record { core = accepted c; memory = m })
          (record { core = x; memory = m }) (record { core = y; memory = m })
          (record { core = z; memory = m' }) (record { core = cycle m' z; memory = m' }) idle refl
          refl at_y at_z
          (silent_cycle written c (accepted c) m ph_idle idle refl
            (cycle_idle m c idle pending quiet))
          (silent_cycle written (accepted c) x m ph_id refl refl (cycle_id m c quiet))
          (silent_cycle written x y m ph_ex refl refl refl) (unfold system_cycle in refl)
          (silent_cycle written z (cycle m' z) m' ph_wb at_z refl refl))
        (memory_retires m m' (waiting c) x refl sound refl access refl (rw is_mem quiet)
          (λ load. unwritten (load_only (waiting c) sound load)))
        unwritten
        (λ store no_trap.
          unfold next_memory in rw (request_after_ex m (waiting c) x refl refl at_y store) refl)

  -- From every state in which a word waits, with a memory that answers in the cycle of the request and
  -- takes the writes.
  pub system_retires :
      (s : System) → ready s.core ≡ true → Instruction s (run written (latency s.core) s)
  system_retires s h =
      let idle : s.core.phase ≡ ph_idle = is_idle s.core.phase (ground arith) in
      let pending : s.core.word_pending ≡ true = ground arith in
      let quiet : s.core.fetch.fetch_phase ≡ f_idle =
        is_f_idle s.core.fetch.fetch_phase (ground arith) in
      elim (Bool-cases (goes_to_memory s.core)) [
        | inl access ↦ access_retires s access idle pending quiet
        | inr plain ↦ plain_retires s h plain idle pending quiet
      ]
