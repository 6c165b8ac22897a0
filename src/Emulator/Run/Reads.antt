-- ===== src/Emulator/Run/Reads.antt =====
-- Each register and each memory word that a row reads is the last one written before it.
use riscv_vibecoded.Emulator.{Entry, Retire, State}
use riscv_vibecoded.Emulator.Step.{write_register, write_memory}
use riscv_vibecoded.Emulator.Step.Rows.{Reads, dispatch-Reads, destination, dispatch-rda}
use riscv_vibecoded.Emulator.Run.{run}
use riscv_vibecoded.Emulator.Run.Trace.{Round, step-eq-ok, run-suc, mem-commit, regs-commit}
use riscv_vibecoded.Py.Int.{ℤ, pos, eqb_ℤ}
use riscv_vibecoded.Py.Error.{ok}
use riscv_vibecoded.Py.Equality.{int_eq}
use riscv_vibecoded.Py.Dict.{get, at, get-put}
use riscv_vibecoded.Py.Seq.{item, set_item, item-set_item}
use riscv_vibecoded.Prelude.{
  ℕ, zero, suc, ◌<◌, ◌==◌, Bool, not, ◌&&◌, Option, some, List, [], ◌∷◌, ◌++◌, if◌then◌else◌, ◌≡◌,
  refl, ap, subst, ◌∙◌, arith,
}

-- The value of register x after the rows, from its value v before them.
abbrev pub last_write : ℕ → ℤ → List Retire → ℤ
last_write x v [] = v
last_write x v (r ∷ rs) = last_write x (if eqb_ℤ r.rda (pos x) && not (x == 0) then r.rdw else v) rs

-- The word of memory at address p after the rows, from what is there before them.
abbrev pub last_store : ℤ → Option ℤ → List Retire → Option ℤ
last_store p v [] = v
last_store p v (r ∷ rs) =
    last_store p (if not (eqb_ℤ r.wm (pos 0)) && eqb_ℤ r.ma p then some r.mwd else v) rs

-- Every entry's destination register is one of x0 .. x31.
abbrev pub Writes : Entry → Type 0
Writes e = (n : ℕ) × (destination e.kind e.args ≡ ok (pos n)) × (n < 32)

-- A predicate of the addresses and entries that a map finds, and one of the entries alone.
abbrev pub EntriesAt : (ℤ → Entry → Type 0) → List (ℤ × Entry) → Type 0
EntriesAt P m = (k : ℤ) (e : Entry) → at k m ≡ ok e → P k e

abbrev pub Entries : (Entry → Type 0) → List (ℤ × Entry) → Type 0
Entries P m = EntriesAt (λ (k : ℤ). P) m

-- Reading a register after a row whose destination is x0 .. x31.
pub item-write_register :
    (r : Retire) (regs regs' : List ℤ) (n x : ℕ) (v : ℤ)
    → write_register r regs ≡ ok regs'
    → r.rda ≡ pos n
    → item regs (pos x) ≡ ok v
    → item regs' (pos x) ≡ ok (if eqb_ℤ r.rda (pos x) && not (x == 0) then r.rdw else v)
unfolding write_register
item-write_register r regs regs' n x v h named e =
    ground
      (arith, item-set_item regs regs' n x r.rdw v, ap (λ (t : ℤ). set_item regs t r.rdw) named)

-- Reading memory after a row.
get-write_memory :
    (r : Retire) (mem : List (ℤ × ℤ)) (p : ℤ)
    → get p (write_memory r mem)
      ≡ (if not (eqb_ℤ r.wm (pos 0)) && eqb_ℤ r.ma p then some r.mwd else get p mem)
unfolding write_memory
get-write_memory r mem p = ground (arith, get-put r.ma p r.mwd mem)

-- The row of a round, with what it reads, and the registers after it.
module _ (m : List (ℤ × Entry)) (named : Entries Writes m) (s : State) (r : Retire) (s' : State)
    (round : Round m s r s') where
  round-Reads : item s.regs (pos 0) ≡ ok (pos 0) → Reads round.entry.word s r
  round-Reads x0 = dispatch-Reads round.entry.kind round.entry.word round.entry.args s x0 round.row

  item-round :
      (x : ℕ) (v : ℤ)
      → item s.regs (pos x) ≡ ok v
      → item s'.regs (pos x) ≡ ok (if eqb_ℤ r.rda (pos x) && not (x == 0) then r.rdw else v)
  item-round x v e =
      let (n, goes, below) = named s.pc round.entry round.found in
      let written = dispatch-rda round.entry.kind round.entry.word round.entry.args s round.row in
      item-write_register r s.regs s'.regs n x v (regs-commit s r s' round.kept)
        (same n goes written) e
    where
      same :
          (n : ℕ)
          → destination round.entry.kind round.entry.args ≡ ok (pos n)
          → destination round.entry.kind round.entry.args ≡ ok r.rda
          → r.rda ≡ pos n
      same n p q = ground arith

  x0-round : item s.regs (pos 0) ≡ ok (pos 0) → item s'.regs (pos 0) ≡ ok (pos 0)
  x0-round e = item-round 0 (pos 0) e ∙ unwritten (eqb_ℤ r.rda (pos 0))
    where
      unwritten : (b : Bool) → ok (if b && not (0 == 0) then r.rdw else pos 0) ≡ ok (pos 0)
      unwritten b = ground arith

-- The state in which a row's round begins, against the state s before the rows ahead of it.
pub record RowState (s : State) (before : List Retire) (r : Retire) : Type 0 where
  pub begin : State
  pub word : ℤ
  pub reads : Reads word begin r
  pub regs :
      (x : ℕ) (v : ℤ)
      → item s.regs (pos x) ≡ ok v
      → item begin.regs (pos x) ≡ ok (last_write x v before)
  pub mem : (p : ℤ) → get p begin.mem ≡ last_store p (get p s.mem) before

module _ (m : List (ℤ × Entry)) (named : Entries Writes m) where
  pub row_state :
      (before : List Retire) (n : ℕ) (s : State) (r : Retire) (after : List Retire) (last : State)
      → item s.regs (pos 0) ≡ ok (pos 0)
      → run m n s ≡ ok (before ++ r ∷ after, last)
      → RowState s before r
  row_state [] zero s r after last x0 h = absurd (unfold run in ground arith)
  row_state (b ∷ before) zero s r after last x0 h = absurd (unfold run in ground arith)
  row_state [] (suc n) s r after last x0 h =
      let (r0, s', rest, first, others, whole) = run-suc m n s h in
      let round = step-eq-ok m s r0 s' first in
      let same : r0 ≡ r = ground arith in
      record {
        begin = s;
        word = round.entry.word;
        reads = subst (λ t. Reads round.entry.word s t) same (round-Reads m named s r0 s' round x0);
        regs = λ x v e. e;
        mem = λ p. refl;
      }
  row_state (b ∷ before) (suc n) s r after last x0 h =
      let (r0, s', rest, first, others, whole) = run-suc m n s h in
      let round = step-eq-ok m s r0 s' first in
      let same : r0 ≡ b = ground arith in
      let same_rest : rest ≡ before ++ r ∷ after = ground arith in
      let later =
        row_state before n s' r after last (x0-round m named s r0 s' round x0)
          (others ∙ ap (λ (t : List Retire). ok (t, last)) same_rest) in
      record {
        begin = later.begin;
        word = later.word;
        reads = later.reads;
        regs = λ x v e. later.regs x _ (
            subst
              (λ (t : Retire).
                item s'.regs (pos x)
                ≡ ok (if eqb_ℤ t.rda (pos x) && not (x == 0) then t.rdw else v))
              same (item-round m named s r0 s' round x v e));
        mem = λ p.
            later.mem p
            ∙ ap (λ (t : Option ℤ). last_store p t before)
                (ap (get p) (mem-commit s r0 s' round.kept)
                  ∙ get-write_memory r0 s.mem p
                  ∙ ap
                      (λ (t : Retire).
                        if not (eqb_ℤ t.wm (pos 0)) && eqb_ℤ t.ma p
                        then some t.mwd
                        else get p s.mem)
                      same);
      }
