-- ===== src/Rtl/Core/Retire/Reset.antt =====
-- rtl/core/rv32i_core.sv with a memory that answers at once and takes the writes: any number of
-- instructions retire after a reset.
use riscv_vibecoded.Rtl.Fetch
use riscv_vibecoded.Rtl.Core.State.{reset}
use riscv_vibecoded.Rtl.Core.Wires.{accept}
use riscv_vibecoded.Rtl.Core.Outputs.{Request, request, rvfi}
use riscv_vibecoded.Rtl.Core.Trap.{fetch_redirect}
use riscv_vibecoded.Rtl.Core.Clock.{clock, edge, phase_d, next_pending, fetch_ports, fetch_start}
use riscv_vibecoded.Rtl.Core.Retire.{cycle, ready, operands}
use riscv_vibecoded.Rtl.Core.Retire.Run.{latency, latency-le}
use riscv_vibecoded.Rtl.Core.Retire.Ram.{
  System, next_memory, system_cycle, run, retired, run_add, retired_add,
}
use riscv_vibecoded.Rtl.Core.Retire.Instruction.{system_retires}
use riscv_vibecoded.Prelude.{ℕ, zero, suc, ◌+◌, ◌*◌, ◌%◌, ◌^◌, ◌≤◌, true, ◌≡◌, refl, arith}

-- What the memory does with a write request.
module _ (written : Request → (ℕ → ℕ) → ℕ → ℕ) where
  -- After k cycles from a reset, with some words in the memory, a word waits and n instructions are
  -- retired.
  pub record Progress (memory : ℕ → ℕ) (n k : ℕ) : Type 0 where
    pub waits : ready (run written k (record { core = reset; memory = memory })).core ≡ true
    pub counted : retired written k (record { core = reset; memory = memory }) ≡ n
    pub numbered :
        (run written k (record { core = reset; memory = memory })).core.order ≡ n % 2 ^ 64

  first_word : (memory : ℕ → ℕ) → Progress memory 0 2
  unfolding run retired rvfi system_cycle next_memory cycle clock edge phase_d accept next_pending
      fetch_redirect Fetch.word_valid Fetch.clock Fetch.capture fetch_ports fetch_start request
      Fetch.req_valid
  first_word memory = record { waits = refl; counted = refl; numbered = refl }

  next_instruction :
      (memory : ℕ → ℕ) (n k : ℕ)
      → Progress memory n k
      → Progress memory
          (suc n)
          (k + latency (run written k (record { core = reset; memory = memory })).core)
  unfolding operands
  next_instruction memory n k so_far =
      let start : System = record { core = reset; memory = memory } in
      let s = run written k start in
      let done = system_retires written s so_far.waits in
      let same = run_add written k (latency s.core) start in
      record {
        waits = rw same done.effects.waits;
        counted =
            omega (arith, retired_add written k (latency s.core) start, done.once, so_far.counted);
        numbered = rw same (omega (arith, done.effects.counted, so_far.numbered));
      }

  -- With a memory that answers in the cycle of the request, and whose words a write request changes in
  -- any way: whatever it holds, the core retires any number n of instructions after a reset, each in one
  -- cycle with rvfi_valid, within 2 + 5 * n cycles; the next word waits then, and the order number is n
  -- modulo 2 ^ 64.
  pub retires_from_reset :
      (memory : ℕ → ℕ) (n : ℕ) → (k : ℕ) × (k ≤ 2 + 5 * n) × Progress memory n k
  retires_from_reset memory zero = (2, omega arith, first_word memory)
  retires_from_reset memory (suc n) =
      let before = retires_from_reset memory n in
      let s = run written before.0 (record { core = reset; memory = memory }) in
      (
        before.0 + latency s.core,
        omega (arith, latency-le s.core, before.1),
        next_instruction memory n before.0 before.2,
      )
