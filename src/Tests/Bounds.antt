-- ===== src/Tests/Bounds.antt =====
-- Examples of the range of the values in the emulator of tools/gen_expected.py.
use riscv_vibecoded.Emulator.{Entry}
use riscv_vibecoded.Emulator.Bounds.Words.{IsWord}
use riscv_vibecoded.Emulator.Bounds.Rows.{Bounded, Keeps}
use riscv_vibecoded.Emulator.Bounds.Run.{WellFormed}
use riscv_vibecoded.Emulator.Bounds.Table.{FitsAt, emulate-WellFormed}
use riscv_vibecoded.Py.Int.{ℤ, pos}
use riscv_vibecoded.Py.Error.{ok}
use riscv_vibecoded.Py.Equality.{int_eq}
use riscv_vibecoded.Py.Dict.{get, at}
use riscv_vibecoded.Py.Seq.{item, at_place, place}
use riscv_vibecoded.Prelude.{
  ℕ, zero, suc, Option, none, some, List, [], ◌∷◌, get_elem?, All, ◌≡◌, refl, arith,
}
use riscv_vibecoded.Tests.Emulation.{
  program, registers, memory, table, end, run_of_program, program-Writes, x0-registers,
}

get_elem?-IsWord :
    (xs : List ℤ) (i : ℕ) (v : ℤ) → All IsWord xs → get_elem? xs i ≡ some v → IsWord v
get_elem?-IsWord [] i v h e = ground arith
get_elem?-IsWord (x ∷ xs) zero v h e = ground (arith, h.0)
get_elem?-IsWord (x ∷ xs) (suc i) v h e = get_elem?-IsWord xs i v h.1 e

pub at_place-IsWord :
    (xs : List ℤ) (p : Option ℕ) (v : ℤ) → All IsWord xs → at_place xs p ≡ ok v → IsWord v
at_place-IsWord xs none v h e = ground arith
at_place-IsWord xs (some i) v h e = get_elem?-IsWord xs i v h (ground arith)

program-FitsAt : All (λ (e : Entry). FitsAt e.addr e) program
program-FitsAt =
    let w = program-Writes in
    unfold Keeps in ((w.0, tt), ((w.1.0, tt), ((w.1.1.0, tt), ((w.1.1.1.0, tt), tt))))

registers-IsWord : All IsWord registers
registers-IsWord = (
  refl,
  (
    refl,
    (
      refl,
      (
        refl,
        (
          refl,
          (
            refl,
            (
              refl,
              (
                refl,
                (
                  refl,
                  (
                    refl,
                    (
                      refl,
                      (
                        refl,
                        (
                          refl,
                          (
                            refl,
                            (
                              refl,
                              (
                                refl,
                                (
                                  refl,
                                  (
                                    refl,
                                    (
                                      refl,
                                      (
                                        refl,
                                        (
                                          refl,
                                          (
                                            refl,
                                            (
                                              refl,
                                              (
                                                refl,
                                                (
                                                  refl,
                                                  (
                                                    refl,
                                                    (
                                                      refl,
                                                      (refl, (refl, (refl, (refl, (refl, tt))))),
                                                    ),
                                                  ),
                                                ),
                                              ),
                                            ),
                                          ),
                                        ),
                                      ),
                                    ),
                                  ),
                                ),
                              ),
                            ),
                          ),
                        ),
                      ),
                    ),
                  ),
                ),
              ),
            ),
          ),
        ),
      ),
    ),
  ),
)

begin-WellFormed : WellFormed (record { regs = registers; mem = memory; pc = pos 0 })
unfolding item at get
begin-WellFormed = record {
  x0 = x0-registers;
  regs = λ i v e. at_place-IsWord registers (place registers i) v registers-IsWord e;
  mem = λ p v e. ground arith;
}

emulate-WellFormed_example : All Bounded table × WellFormed end
emulate-WellFormed_example =
    emulate-WellFormed program registers memory (pos 0) (pos 0) (pos 4) table end program-FitsAt
      begin-WellFormed run_of_program
