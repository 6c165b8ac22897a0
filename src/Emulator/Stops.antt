-- ===== src/Emulator/Stops.antt =====
-- tools/gen_expected.py, `emulate`: how it fails.
use Prim.Native.String.{String}
use riscv_vibecoded.Emulator.{Entry, Retire, State, other}
use riscv_vibecoded.Emulator.Step.{dispatch}
use riscv_vibecoded.Emulator.Run.{pc_map, step, emulate, run}
use riscv_vibecoded.Emulator.Run.Trace.{run-suc}
use riscv_vibecoded.Py.Int.{ℤ, pos}
use riscv_vibecoded.Py.Error.{Error, ok, err, key_error, value_error}
use riscv_vibecoded.Py.Equality.{int_eq, eqb_ℤ_iff}
use riscv_vibecoded.Py.Dict.{get, at, put, get-put}
use riscv_vibecoded.Prelude.{
  All, ℕ, zero, suc, ◌<◌, none, List, [], ◌∷◌, ◌≡◌, ◌≢◌, refl, sym, ap, some, ◌∙◌, arith,
}

-- A run that comes to a round that fails, fails if it goes on to that round.
run_fails :
    (m : List (ℤ × Entry)) (n t : ℕ) (s : State) {rows : List Retire} {s' : State} {e : Error}
    → run m n s ≡ ok (rows, s')
    → step m s' ≡ err e
    → n < t
    → run m t s ≡ err e
unfolding run
run_fails m n zero s h fails below = absurd (omega arith)
run_fails m zero (suc t) s {rows} {s'} h fails below =
    let same : s' ≡ s = ground arith in rw (ap (step m) (sym same) ∙ fails) refl
run_fails m (suc n) (suc t) s h fails below =
    let (r, s1, rest, first, others, whole) = run-suc m n s h in
    rw first (rw (run_fails m n t s1 others fails (omega arith)) refl)

pc_map-misses :
    (k : ℤ) (m : List (ℤ × Entry)) (prog : List Entry)
    → get k m ≡ none
    → All (λ e. e.addr ≢ k) prog
    → get k (pc_map m prog) ≡ none
unfolding pc_map
pc_map-misses k m [] h all = h
pc_map-misses k m (e ∷ prog) h all =
    pc_map-misses k (put e.addr e m) prog
      (ground (arith, get-put e.addr k e m, eqb_ℤ_iff e.addr k, all.0)) all.1

module _ (prog : List Entry) (regs : List ℤ) (mem : List (ℤ × ℤ)) (start_pc order0 : ℤ) (n m : ℕ)
    (rows : List Retire) (last : State)
    (success : emulate prog regs mem start_pc order0 (pos n) ≡ ok (rows, last)) (more : n < m) where
  -- If the emulation of n instructions succeeds and ends at an address at which the program has no
  -- entry, then the emulation of more instructions raises a KeyError.
  pub emulate_leaves_program :
      All (λ e. e.addr ≢ last.pc) prog
      → emulate prog regs mem start_pc order0 (pos m) ≡ err key_error
  unfolding emulate step at
  emulate_leaves_program outside =
      let missing : get last.pc (pc_map [] prog) ≡ none =
        pc_map-misses last.pc [] prog (unfold get in refl) outside in
      run_fails (pc_map [] prog) n m _ success (rw missing refl) more

  -- If it ends at an entry of a kind that the emulator does not know, then the emulation of more
  -- instructions raises a ValueError.
  pub emulate_unknown_kind :
      (e : Entry) (name : String)
      → get last.pc (pc_map [] prog) ≡ some e
      → e.kind ≡ other name
      → emulate prog regs mem start_pc order0 (pos m) ≡ err value_error
  unfolding emulate step at dispatch
  emulate_unknown_kind e name found unknown =
      run_fails (pc_map [] prog) n m _ success (rw (found, unknown) refl) more
