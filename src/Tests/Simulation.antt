-- ===== src/Tests/Simulation.antt =====
-- Examples of the emulator of tools/gen_expected.py against the instruction set.
use riscv_vibecoded.Emulator.{State, clw, csw}
use riscv_vibecoded.Emulator.Simulation.{Simulated}
use riscv_vibecoded.Emulator.Simulation.Memory.{word_accesses_simulate}
use riscv_vibecoded.Encoder.Compressed.{c_lw, c_sw}
use riscv_vibecoded.Py.Int.{ℤ, pos}
use riscv_vibecoded.Py.Seq.{item}
use riscv_vibecoded.Prelude.{ℕ, zero, suc, List, [], ◌∷◌, refl, arith}

-- x1 is a return address, x2 and x8 point to a word of memory, x9 is negative.
abbrev sample : State
sample = record {
  regs =
      pos 0
      ∷ pos 0x8D
      ∷ pos 0x100
      ∷ pos 0
      ∷ pos 0
      ∷ pos 0
      ∷ pos 0
      ∷ pos 0
      ∷ pos 0x100
      ∷ pos 0xFFFFFFFC
      ∷ [];
  mem = (pos 0x104, pos 17) ∷ [];
  pc = pos 0x60;
}

abbrev sevens : ℕ → List ℤ
sevens zero = []
sevens (suc n) = pos 7 ∷ sevens n

-- All registers hold 7, but for x0.
abbrev full : State
full = record { regs = pos 0 ∷ sevens 31; mem = []; pc = pos 0 }

word_accesses_simulate_example :
    Simulated (c_lw (pos 8) (pos 9) (pos 4)) 2 clw (pos 8 ∷ pos 9 ∷ pos 4 ∷ []) sample
    × Simulated (c_sw (pos 8) (pos 9) (pos 4)) 2 csw (pos 8 ∷ pos 9 ∷ pos 4 ∷ []) sample
unfolding item
word_accesses_simulate_example =
    word_accesses_simulate sample 0x100 9 4 (omega arith) refl refl 8 refl (omega arith)
      (omega arith) (omega arith) (omega arith) (omega arith)
