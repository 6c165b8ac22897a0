-- ===== src/Rtl/Core/Effect/Registers.antt =====
-- The registers and the program counter of the emulator of tools/gen_expected.py, as numbers, and what
-- Isa.Execute reads and writes of them.
use riscv_vibecoded.Emulator.{State}
use riscv_vibecoded.Isa.Execute.{retire}
use riscv_vibecoded.Rtl.Decoder.Action.{read}
use riscv_vibecoded.Rtl.Core.Effect.{value_of, Effect as Outcome, after}
use riscv_vibecoded.Py.Int.{ℤ, pos}
use riscv_vibecoded.Py.Error.{ok, >>=-eq-ok}
use riscv_vibecoded.Py.Seq.{item, set_item, item-eq_ok, set_item-eq_ok, item-set_item}
use riscv_vibecoded.Prelude.{
  ℕ, zero, suc, ◌^◌, ◌<◌, false, ◌==◌, if◌then◌else◌, some, List, length, length-set, Bool-cases,
  inl, inr, ==_iff, subst, ◌≡◌, refl, sym, ap, ◌∙◌, arith,
}

-- The emulator's state has the program counter pc and the 32 registers regs.
pub record Matches (s : State) (pc : ℕ) (regs : ℕ → ℕ) : Type 0 where
  pub full : length s.regs ≡ 32
  pub registers : (r : ℕ) → r < 32 → item s.regs (pos r) ≡ ok (pos (regs r))
  pub words : (r : ℕ) → regs r < 2 ^ 32
  pub zero_register : regs 0 ≡ 0
  pub counter : s.pc ≡ pos pc

ok_injective : {A : Type 0} → (x y : A) → ok x ≡ ok y → x ≡ y
ok_injective x y h = ground arith

pub some_injective : {A : Type 0} → (x y : A) → some x ≡ some y → x ≡ y
some_injective x y h = ground arith

read_zero : (r pc : ℕ) (regs : ℕ → ℕ) → regs 0 ≡ 0 → value_of (read r) pc regs ≡ regs r
unfolding value_of
read_zero r pc regs h = elim (Bool-cases (r == 0)) [
  | inl e ↦ rw e (sym h ∙ ap regs (sym ((==_iff r 0).0 e)))
  | inr e ↦ rw e refl
]

-- A register that is read.
pub known_register :
    (s : State) (pc : ℕ) (regs : ℕ → ℕ) (r : ℕ) (x : ℤ)
    → Matches s pc regs
    → item s.regs (pos r) ≡ ok x
    → x ≡ pos (value_of (read r) pc regs)
known_register s pc regs r x m h =
    let inside : r < 32 = ground (arith, item-eq_ok s.regs r x h, m.full) in
    ok_injective x (pos (regs r)) (sym h ∙ m.registers r inside)
    ∙ ap pos (sym (read_zero r pc regs m.zero_register))

written_length :
    (xs ys : List ℤ) (d : ℕ) (v : ℤ) → set_item xs (pos d) v ≡ ok ys → length ys ≡ length xs
written_length xs ys d v e = rw ((set_item-eq_ok xs ys d v e).1) (length-set xs d v)

written_word :
    (e : Outcome) (regs : ℕ → ℕ) (r : ℕ)
    → e.value < 2 ^ 32
    → regs r < 2 ^ 32
    → after e regs r < 2 ^ 32
written_word e regs r h k = ground arith

written_register :
    (xs ys : List ℤ) (regs : ℕ → ℕ) (rd value next r : ℕ)
    → (rd == 0) ≡ false
    → set_item xs (pos rd) (pos value) ≡ ok ys
    → item xs (pos r) ≡ ok (pos (regs r))
    → item ys (pos r) ≡ ok (pos (after (record { rd = rd; value = value; next = next }) regs r))
written_register xs ys regs rd value next r positive e k =
    item-set_item xs ys rd r (pos value) (pos (regs r)) e k ∙ rw positive same
  where
    same :
        ok (if rd == r then pos value else pos (regs r))
        ≡ ok (pos (if r == rd then value else regs r))
    same = elim (Bool-cases (r == rd)) [
      | inl e ↦ rw e (rw ((==_iff r rd).0 e) (ground arith))
      | inr e ↦ rw e (ground arith)
    ]

-- Writing a register and going on.
pub retire-Matches :
    (s s' : State) (pc : ℕ) (regs : ℕ → ℕ) (rd value next : ℕ)
    → Matches s pc regs
    → value < 2 ^ 32
    → retire s rd (pos value) (pos next) ≡ ok s'
    → Matches s' next (after (record { rd = rd; value = value; next = next }) regs)
unfolding retire
retire-Matches s s' pc regs zero value next m bounded h =
    subst
      (λ (t : State).
        Matches t next (after (record { rd = zero; value = value; next = next }) regs))
      (ok_injective (record s { pc = pos next }) s' h)
      record {
        full = m.full;
        registers = m.registers;
        words = m.words;
        zero_register = m.zero_register;
        counter = refl;
      }
retire-Matches s s' pc regs (suc rd) value next m bounded h =
    let (written, e, k) =
      >>=-eq-ok (set_item s.regs (pos (suc rd)) (pos value))
        (λ (regs : List ℤ). ok (record s { regs = regs; pc = pos next })) h in
    subst
      (λ (t : State).
        Matches t next (after (record { rd = suc rd; value = value; next = next }) regs))
      (ok_injective (record s { regs = written; pc = pos next }) s' k)
      record {
        full = written_length s.regs written (suc rd) (pos value) e ∙ m.full;
        registers = λ r below.
            written_register s.regs written regs (suc rd) value next r positive e
              (m.registers r below);
        words = λ r.
            written_word (record { rd = suc rd; value = value; next = next }) regs r bounded
              (m.words r);
        zero_register = rw positive (rw zero_other m.zero_register);
        counter = refl;
      }
  where
    positive : (suc rd == 0) ≡ false
    positive = ground arith

    zero_other : (0 == suc rd) ≡ false
    zero_other = ground arith

pub read-lt :
    (r pc : ℕ) (regs : ℕ → ℕ) → ((i : ℕ) → regs i < 2 ^ 32) → value_of (read r) pc regs < 2 ^ 32
unfolding value_of
read-lt r pc regs h = elim (Bool-cases (r == 0)) [
  | inl e ↦ rw e (ground arith)
  | inr e ↦ rw e (h r)
]
