-- ===== src/Emulator/Bounds/Table.antt =====
-- tools/gen_expected.py, `emulate`: every value of the table is a 32-bit word.
use riscv_vibecoded.Emulator.{Entry, Retire, State}
use riscv_vibecoded.Emulator.Step.Rows.{dispatch-rda}
use riscv_vibecoded.Emulator.Run.{pc_map, run, emulate}
use riscv_vibecoded.Emulator.Run.Trace.{step-eq-ok, run-suc}
use riscv_vibecoded.Emulator.Run.Reads.{Writes, EntriesAt}
use riscv_vibecoded.Emulator.Table.{pc_map-EntriesAt, nothing-EntriesAt}
use riscv_vibecoded.Emulator.Bounds.Rows.{Bounded, Keeps, dispatch-Bounded}
use riscv_vibecoded.Emulator.Bounds.Run.{WellFormed, commit-WellFormed}
use riscv_vibecoded.Py.Int.{ℤ, pos, pos_part}
use riscv_vibecoded.Py.Error.{ok}
use riscv_vibecoded.Prelude.{ℕ, zero, suc, List, [], All, ◌≡◌, sym, subst, ◌∙◌, arith}

-- An entry at its address: its destination is one of x0 .. x31, and it is such that a row stays in 32 bits.
abbrev pub FitsAt : ℤ → Entry → Type 0
FitsAt pc e = Writes e × Keeps e.kind e.args pc

run-WellFormed :
    (m : List (ℤ × Entry)) (n : ℕ) (s : State) {rows : List Retire} {last : State}
    → EntriesAt FitsAt m
    → WellFormed s
    → run m n s ≡ ok (rows, last)
    → All Bounded rows × WellFormed last
run-WellFormed m zero s {rows} {last} fits well h =
    (subst (All Bounded) (nothing h) tt, subst WellFormed (same h) well)
  where
    nothing : run m 0 s ≡ ok (rows, last) → [] ≡ rows
    nothing h = unfold run in ground arith

    same : run m 0 s ≡ ok (rows, last) → s ≡ last
    same h = unfold run in ground arith
run-WellFormed m (suc n) s {rows} {last} fits well h =
    let (r, s', rest, first, others, whole) = run-suc m n s h in
    let round = step-eq-ok m s r s' first in
    let e = round.entry in
    let ((d, named, small), keeps) = fits s.pc e round.found in
    let bounded =
      dispatch-Bounded e.kind e.word e.args s well.x0 well.regs well.mem keeps round.row in
    let at_register : ok r.rda ≡ ok (pos d) =
      sym (dispatch-rda e.kind e.word e.args s round.row) ∙ named in
    let after = commit-WellFormed s r s' round.kept bounded well d (ground arith) in
    let (rows_after, well_last) = run-WellFormed m n s' fits after others in
    (subst (All Bounded) whole (bounded, rows_after), well_last)

-- For a program whose entries have destinations x0 .. x31, with 32-bit words for every lui, 32-bit links
-- for every cjal and no csrai, and for registers and memory of 32-bit words with 0 in x0: in the table of
-- a successful emulation each value that is read or written is a 32-bit word, and so are the registers
-- and the memory after it, with 0 in x0.
pub emulate-WellFormed :
    (prog : List Entry) (regs : List ℤ) (mem : List (ℤ × ℤ)) (start_pc order0 max_retires : ℤ)
    (rows : List Retire) (last : State)
    → All (λ (e : Entry). FitsAt e.addr e) prog
    → WellFormed (record { regs = regs; mem = mem; pc = start_pc })
    → emulate prog regs mem start_pc order0 max_retires ≡ ok (rows, last)
    → All Bounded rows × WellFormed last
unfolding emulate
emulate-WellFormed prog regs mem start_pc order0 max_retires rows last fits well h =
    run-WellFormed (pc_map [] prog) (pos_part max_retires)
      (record { regs = regs; mem = mem; pc = start_pc })
      (pc_map-EntriesAt FitsAt [] prog fits (nothing-EntriesAt FitsAt)) well h
