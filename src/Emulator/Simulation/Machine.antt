-- ===== src/Emulator/Simulation/Machine.antt =====
-- A whole emulation against a machine that sees only the words of the program.
use riscv_vibecoded.Emulator.{Entry, Retire, State}
use riscv_vibecoded.Emulator.Simulation.{round}
use riscv_vibecoded.Emulator.Simulation.Made.{Made, Made-Agrees}
use riscv_vibecoded.Emulator.Step.{commit, write_register}
use riscv_vibecoded.Emulator.Step.Rows.{dispatch-rda}
use riscv_vibecoded.Emulator.Run.{pc_map, run, emulate}
use riscv_vibecoded.Emulator.Run.Trace.{step-eq-ok, run-suc, regs-commit}
use riscv_vibecoded.Emulator.Run.Reads.{EntriesAt}
use riscv_vibecoded.Emulator.Table.{pc_map-EntriesAt, nothing-EntriesAt}
use riscv_vibecoded.Emulator.Bounds.Rows.{dispatch-Bounded}
use riscv_vibecoded.Emulator.Bounds.Run.{WellFormed, commit-WellFormed}
use riscv_vibecoded.Emulator.Bounds.Table.{FitsAt}
use riscv_vibecoded.Isa.Insn.{Insn, decode, bytes, Encodes}
use riscv_vibecoded.Isa.Execute.{execute}
use riscv_vibecoded.Py.Int.{ℤ, pos, negsuc, pos_part, eqb_ℤ}
use riscv_vibecoded.Py.Error.{Result, ok, err, value_error, ◌>>=◌}
use riscv_vibecoded.Py.Equality.{int_eq}
use riscv_vibecoded.Py.Dict.{at}
use riscv_vibecoded.Py.Seq.{set_item, place, set_place}
use riscv_vibecoded.Prelude.{
  ℕ, zero, suc, true, false, Option, none, some, List, [], length, set, length-set, All, Bool-cases,
  inl, inr, ◌≡◌, refl, sym, ap, ◌∙◌, arith,
}

abbrev pub execute_decoded : Option Insn → ℕ → State → Result State
execute_decoded none n s = err value_error
execute_decoded (some i) n s = execute i n s

-- What the instruction does that a word encodes; a word that encodes none has no result.
unfoldable pub execute_word : ℤ → State → Result State
execute_word (pos w) s = execute_decoded (decode w) (bytes w) s
execute_word (negsuc w) s = err value_error

-- n instructions, each the word at the program counter.
unfoldable pub run_words : List (ℤ × Entry) → ℕ → State → Result State
run_words m zero s = ok s
run_words m (suc n) s = do e ← at s.pc m; s' ← execute_word e.word s; run_words m n s'

pub execute_word-Encodes :
    (w : ℤ) (n : ℕ) (i : Insn) (s : State) → Encodes w n i → execute_word w s ≡ execute i n s
execute_word-Encodes w n i s h =
    ap (λ (t : ℤ). execute_word t s) h.is_word ∙ unfold execute_word in rw (h.decoded, h.sized) refl

length-set_place :
    (xs ys : List ℤ) (p : Option ℕ) (v : ℤ) → set_place xs p v ≡ ok ys → length ys ≡ length xs
length-set_place xs ys none v h = ground arith
length-set_place xs ys (some n) v h = ap length (sym (written h)) ∙ length-set xs n v
  where
    written : ok (set xs n v) ≡ ok ys → set xs n v ≡ ys
    written h = ground arith

length-commit :
    (s : State) (r : Retire) (s' : State) → commit s r ≡ ok s' → length s'.regs ≡ length s.regs
length-commit s r s' kept = elim (Bool-cases (eqb_ℤ r.rda (pos 0))) [
  | inl none' ↦ ap length (sym (unchanged none'))
  | inr some' ↦ length-set_place s.regs s'.regs (place s.regs r.rda) r.rdw (written some')
]
  where
    unchanged : eqb_ℤ r.rda (pos 0) ≡ true → s.regs ≡ s'.regs
    unchanged e = unfold write_register in ground (arith, regs-commit s r s' kept)

    written : eqb_ℤ r.rda (pos 0) ≡ false → set_place s.regs (place s.regs r.rda) r.rdw ≡ ok s'.regs
    written e = unfold write_register set_item in ground (arith, regs-commit s r s' kept)

-- An entry made with its encoder, that writes one of x0 .. x31 and stays in 32 bits.
abbrev pub MadeAt : ℤ → Entry → Type 0
MadeAt pc e = FitsAt pc e × Made pc e.word e.kind e.args

run_words_step :
    (m : List (ℤ × Entry)) (n : ℕ) (s : State) (e : Entry) (s' : State)
    → at s.pc m ≡ ok e
    → execute_word e.word s ≡ ok s'
    → run_words m (suc n) s ≡ run_words m n s'
unfolding run_words
run_words_step m n s e s' found word = rw (found, word) refl

run_words-run :
    (m : List (ℤ × Entry)) (n : ℕ) (s : State) {rows : List Retire} {last : State}
    → EntriesAt MadeAt m
    → WellFormed s
    → length s.regs ≡ 32
    → run m n s ≡ ok (rows, last)
    → run_words m n s ≡ ok last
run_words-run m zero s {rows} {last} made well full h = unfold run_words run in ground arith
run_words-run m (suc n) s {rows} {last} made well full h =
    let (r, s', rest, first, others, whole) = run-suc m n s h in
    let rnd = step-eq-ok m s r s' first in
    let e = rnd.entry in
    let (((d, named, small), keeps), by_encoder) = made s.pc e rnd.found in
    let bounded =
      dispatch-Bounded e.kind e.word e.args s well.x0 well.regs well.mem keeps rnd.row in
    let at_register : ok r.rda ≡ ok (pos d) =
      sym (dispatch-rda e.kind e.word e.args s rnd.row) ∙ named in
    let after = commit-WellFormed s r s' rnd.kept bounded well d (ground arith) in
    let (size, i, encodes, same) = Made-Agrees e.word s well full e.kind e.args by_encoder in
    let did : round e.kind e.word e.args s ≡ ok s' =
      ap (λ (t : Result Retire). t >>= commit s) rnd.row ∙ rnd.kept in
    let word : execute_word e.word s ≡ ok s' =
      execute_word-Encodes e.word size i s encodes ∙ sym same ∙ did in
    run_words_step m n s e s' rnd.found word
    ∙ run_words-run m n s' made after (length-commit s r s' rnd.kept ∙ full) others

-- For a program whose entries are made with the encoders of the kinds that use no memory, csrai left
-- out, that write x0 .. x31 and stay in 32 bits, and for 32 registers and a memory of 32-bit words
-- with 0 in x0: a successful emulation, which goes by the kinds and arguments, ends in the state that the
-- words of the program lead to in as many instructions.
pub run_words-emulate :
    (prog : List Entry) (regs : List ℤ) (mem : List (ℤ × ℤ)) (start_pc order0 max_retires : ℤ)
    (rows : List Retire) (last : State)
    → All (λ (e : Entry). MadeAt e.addr e) prog
    → WellFormed (record { regs = regs; mem = mem; pc = start_pc })
    → length regs ≡ 32
    → emulate prog regs mem start_pc order0 max_retires ≡ ok (rows, last)
    → run_words
        (pc_map [] prog)
        (pos_part max_retires)
        (record { regs = regs; mem = mem; pc = start_pc })
      ≡ ok last
unfolding emulate
run_words-emulate prog regs mem start_pc order0 max_retires rows last made well full h =
    run_words-run (pc_map [] prog) (pos_part max_retires)
      (record { regs = regs; mem = mem; pc = start_pc })
      (pc_map-EntriesAt MadeAt [] prog made (nothing-EntriesAt MadeAt)) well full h
