-- ===== src/Emulator/Run/Trace.antt =====
-- The table as a sequence of rounds: the rows follow one another, and there are as many as asked.
use riscv_vibecoded.Emulator.{Entry, Retire, State}
use riscv_vibecoded.Emulator.Step.{dispatch, commit, write_register, write_memory}
use riscv_vibecoded.Emulator.Step.Rows.{dispatch-pc}
use riscv_vibecoded.Emulator.Run.{step, run}
use riscv_vibecoded.Py.Int.{ℤ}
use riscv_vibecoded.Py.Error.{Result, ok, >>=-eq-ok}
use riscv_vibecoded.Py.Equality.{int_eq}
use riscv_vibecoded.Py.Dict.{at}
use riscv_vibecoded.Prelude.{ℕ, zero, suc, List, [], ◌∷◌, length, ◌≡◌, sym, ap, subst, ◌∙◌, arith}

-- A successful round, taken apart.
pub record Round (m : List (ℤ × Entry)) (s : State) (r : Retire) (s' : State) : Type 0 where
  pub entry : Entry
  pub found : at s.pc m ≡ ok entry
  pub row : dispatch entry.kind entry.word entry.args s ≡ ok r
  pub kept : commit s r ≡ ok s'

ok_pair :
    {A B : Type 0} {a a' : A} {b b' : B}
    → ◌≡◌ {A = Result (A × B)} (ok (a, b)) (ok (a', b'))
    → (a ≡ a') × (b ≡ b')
ok_pair h = (ground arith, ground arith)

pub step-eq-ok :
    (m : List (ℤ × Entry)) (s : State) (r : Retire) (s' : State)
    → step m s ≡ ok (r, s')
    → Round m s r s'
unfolding step
step-eq-ok m s r s' h =
    let (e, found, h1) = >>=-eq-ok (at s.pc m) _ h in
    let (r0, row, h2) = >>=-eq-ok (dispatch e.kind e.word e.args s) _ h1 in
    let (s0, kept, h3) = >>=-eq-ok (commit s r0) _ h2 in
    let same = ok_pair h3 in
    record {
      entry = e;
      found = found;
      row = row ∙ ap ok same.0;
      kept = ap (commit s) (sym same.0) ∙ kept ∙ ap ok same.1;
    }

-- A successful run of n + 1 rounds is a round and a run of n.
pub run-suc :
    (m : List (ℤ × Entry)) (n : ℕ) (s : State) {rows : List Retire} {last : State}
    → run m (suc n) s ≡ ok (rows, last)
    → (r : Retire) × (s' : State) × (rest : List Retire) × (step m s ≡ ok (r, s'))
      × (run m n s' ≡ ok (rest, last))
      × (r ∷ rest ≡ rows)
unfolding run
run-suc m n s h =
    let (p, first, h1) = >>=-eq-ok (step m s) _ h in
    let (q, others, h2) = >>=-eq-ok (run m n p.1) _ h1 in
    let same = ok_pair h2 in
    (p.0, p.1, q.0, first, others ∙ ap (λ (t : State). ok (q.0, t)) same.1, same.0)

module _ (s : State) (r : Retire) (s' : State) (kept : commit s r ≡ ok s') where
  pub pc-commit : s'.pc ≡ r.pcw
  pc-commit = unfold commit in ground arith

  pub mem-commit : s'.mem ≡ write_memory r s.mem
  mem-commit = unfold commit in ground arith

  pub regs-commit : write_register r s.regs ≡ ok s'.regs
  regs-commit = unfold commit in ground arith

-- The rows lead from one program counter to another, each from where the one before it ends.
abbrev pub Chained : ℤ → List Retire → ℤ → Type 0
Chained pc [] last = pc ≡ last
Chained pc (r ∷ rs) last = (r.pc ≡ pc) × Chained r.pcw rs last

pub run-Chained :
    (m : List (ℤ × Entry)) (n : ℕ) (s : State) {rows : List Retire} {last : State}
    → run m n s ≡ ok (rows, last)
    → Chained s.pc rows last.pc × (length rows ≡ n)
run-Chained m zero s h = unfold run in ground arith
run-Chained m (suc n) s {rows} {last} h =
    let (r, s', rest, first, others, whole) = run-suc m n s h in
    let round = step-eq-ok m s r s' first in
    let (after, count) = run-Chained m n s' others in
    subst (λ (t : List Retire). Chained s.pc t last.pc × (length t ≡ suc n)) whole
      (
        (
          (dispatch-pc round.entry.kind round.entry.word round.entry.args s round.row).1,
          subst (λ (t : ℤ). Chained t rest last.pc) (pc-commit s r s' round.kept) after,
        ),
        ap suc count,
      )
