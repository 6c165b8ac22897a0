-- ===== src/Emulator/Run.antt =====
-- tools/gen_expected.py, `emulate`.
pub mod Trace
pub mod Reads
use riscv_vibecoded.Emulator.{Kind, Entry, Retire, State}
use riscv_vibecoded.Emulator.Step.{dispatch, commit}
use riscv_vibecoded.Py.Int.{ℤ, pos, pos_part}
use riscv_vibecoded.Py.Error.{Result, ok, ◌>>=◌}
use riscv_vibecoded.Py.Equality.{int_eq}
use riscv_vibecoded.Py.Dict.{at, put}
use riscv_vibecoded.Prelude.{ℕ, zero, suc, List, [], ◌∷◌}

-- {a: (w, k, a_) for a, w, k, a_ in prog}: a later entry replaces one at the same address.
unfoldable pub pc_map : List (ℤ × Entry) → List Entry → List (ℤ × Entry)
pc_map m [] = m
pc_map m (e ∷ prog) = pc_map (put e.addr e m) prog

-- One round of the loop: the row, and the state after it.
unfoldable pub step : List (ℤ × Entry) → State → Result (Retire × State)
step m s = do e ← at s.pc m; r ← dispatch e.kind e.word e.args s; s' ← commit s r; ok (r, s')

-- `while len(ret) < max_retires`: every round appends one row, so the rounds left are counted.
unfoldable pub run : List (ℤ × Entry) → ℕ → State → Result (List Retire × State)
run m zero s = ok ([], s)
run m (suc left) s = do (r, s') ← step m s; (rest, last) ← run m left s'; ok (r ∷ rest, last)

-- `emulate`: the rows, and the state in which it leaves the caller's `regs` and `mem`. The source's
-- `order0` is not used.
unfoldable pub emulate :
    List Entry → List ℤ → List (ℤ × ℤ) → ℤ → ℤ → ℤ → Result (List Retire × State)
emulate prog regs mem start_pc order0 max_retires =
    run (pc_map [] prog) (pos_part max_retires) (record { regs = regs; mem = mem; pc = start_pc })
