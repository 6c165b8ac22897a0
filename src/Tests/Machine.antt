-- ===== src/Tests/Machine.antt =====
-- An example of a whole emulation in tools/gen_expected.py.
use riscv_vibecoded.Emulator.{Kind, Entry, Retire, State, addi, caddi, cbnez}
use riscv_vibecoded.Emulator.Alu.{m32}
use riscv_vibecoded.Emulator.Step.{dispatch, blank, commit, write_register, write_memory}
use riscv_vibecoded.Emulator.Step.Rows.{destination}
use riscv_vibecoded.Emulator.Run.{pc_map, step, run, emulate}
use riscv_vibecoded.Emulator.Bounds.Words.{IsWord}
use riscv_vibecoded.Emulator.Bounds.Rows.{Keeps}
use riscv_vibecoded.Emulator.Bounds.Run.{WellFormed}
use riscv_vibecoded.Emulator.Simulation.Made.{by_addi, by_caddi, by_cbnez}
use riscv_vibecoded.Emulator.Simulation.Machine.{MadeAt, run_words, run_words-emulate}
use riscv_vibecoded.Encoder.{mask32}
use riscv_vibecoded.Encoder.Base.{itype}
use riscv_vibecoded.Encoder.Compressed.{c_addi, c_bnez, ci_imm, c_cb_imm, spn}
use riscv_vibecoded.Py.Int.{ℤ, pos, negsuc, ◌+ℤ◌, ◌-ℤ◌, ◌&ℤ◌, ◌|ℤ◌, ◌<<ℤ◌, ◌>>ℤ◌, ◌%ℤ◌}
use riscv_vibecoded.Py.Error.{Result, ok}
use riscv_vibecoded.Py.Equality.{int_eq}
use riscv_vibecoded.Py.Dict.{get, put, at}
use riscv_vibecoded.Py.Seq.{item, set_item, place}
use riscv_vibecoded.Prelude.{ℕ, zero, suc, List, [], ◌∷◌, All, ◌≡◌, refl, arith}
use riscv_vibecoded.Tests.Bounds.{at_place-IsWord}
use riscv_vibecoded.Tests.Emulation.{zeros}

abbrev entry : ℕ → ℕ → Kind → List ℤ → Entry
entry addr word kind args = record { addr = pos addr; word = pos word; kind = kind; args = args }

-- addi x8, x0, 5; then c.addi x8, -1 and c.bnez x8, -2 in a loop
abbrev pub countdown : List Entry
countdown =
    entry 0 0x00500413 addi (pos 8 ∷ pos 0 ∷ pos 5 ∷ [])
    ∷ entry 4 0x147D caddi (pos 8 ∷ negsuc 0 ∷ [])
    ∷ entry 6 0xFC7D cbnez (pos 8 ∷ negsuc 1 ∷ [])
    ∷ []

abbrev rows_of : Result (List Retire × State) → List Retire
rows_of (ok (rows, last)) = rows
rows_of _ = []

-- Six rounds: the loop, twice, and a part of the next one.
abbrev pub after : State
after = record {
  regs = pos 0 ∷ pos 0 ∷ pos 0 ∷ pos 0 ∷ pos 0 ∷ pos 0 ∷ pos 0 ∷ pos 0 ∷ pos 2 ∷ zeros 23;
  mem = [];
  pc = pos 6;
}

abbrev pub shown : List Retire
shown = rows_of (emulate countdown (zeros 32) [] (pos 0) (pos 0) (pos 6))

pub countdown_runs : emulate countdown (zeros 32) [] (pos 0) (pos 0) (pos 6) ≡ ok (shown, after)
unfolding emulate run step pc_map dispatch blank commit write_register write_memory get put at item
    set_item m32 ◌+ℤ◌ ◌&ℤ◌
countdown_runs = refl

pub countdown-MadeAt : All (λ (e : Entry). MadeAt e.addr e) countdown
unfolding destination item Keeps itype mask32 c_addi c_bnez ci_imm c_cb_imm spn ◌+ℤ◌ ◌-ℤ◌ ◌&ℤ◌ ◌|ℤ◌
    ◌<<ℤ◌ ◌>>ℤ◌ ◌%ℤ◌
countdown-MadeAt = (
  (
    ((8, refl, omega arith), tt),
    by_addi 8 0 (pos 5) (omega arith) (omega arith) (omega arith) (omega arith) refl,
  ),
  (
    (
      ((8, refl, omega arith), tt),
      by_caddi 8 (negsuc 0) (omega arith) (omega arith, omega arith) refl,
    ),
    (
      (
        ((0, refl, omega arith), tt),
        by_cbnez 8 (negsuc 1) (omega arith, omega arith)
            (refl, omega arith, omega arith, omega arith, omega arith) refl,
      ),
      tt,
    ),
  ),
)

zeros-IsWord : (n : ℕ) → All IsWord (zeros n)
zeros-IsWord zero = tt
zeros-IsWord (suc n) = (refl, zeros-IsWord n)

pub zeros-WellFormed : WellFormed (record { regs = zeros 32; mem = []; pc = pos 0 })
unfolding item at get
zeros-WellFormed = record {
  x0 = refl;
  regs = λ i v e. at_place-IsWord (zeros 32) (place (zeros 32) i) v (zeros-IsWord 32) e;
  mem = λ p v e. ground arith;
}

run_words-emulate_example :
    run_words (pc_map [] countdown) 6 (record { regs = zeros 32; mem = []; pc = pos 0 }) ≡ ok after
run_words-emulate_example =
    run_words-emulate countdown (zeros 32) [] (pos 0) (pos 0) (pos 6) shown after countdown-MadeAt
      zeros-WellFormed refl countdown_runs
