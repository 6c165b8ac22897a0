-- ===== src/Emulator/Simulation.antt =====
-- tools/gen_expected.py against the instruction set: a round of the emulator, by the kind and the
-- arguments of an entry, does what the entry's word says.
pub mod Alu
pub mod Addition
pub mod Control
pub mod Base
pub mod Made
pub mod Machine
pub mod Memory
use riscv_vibecoded.Emulator.{
  Kind, addi, cli, cadd, csub, cslli, csrli, candi, cmv, caddi, cxor, cor, cand, Retire, State,
}
use riscv_vibecoded.Emulator.Alu.{m32, arith_op, Op, shift_left, shift_right}
use riscv_vibecoded.Emulator.Step.{
  dispatch, two_registers, one_register, commit, blank, write_register, write_memory,
}
use riscv_vibecoded.Isa.Insn.{Insn, op, op_imm, Encodes}
use riscv_vibecoded.Isa.Execute.{execute, alu, alu_imm, retire, covered}
use riscv_vibecoded.Py.Int.{ℤ, pos, negsuc, ◌+ℤ◌, ◌-ℤ◌, ◌&ℤ◌, ◌%ℤ◌, ◌≤ℤ◌}
use riscv_vibecoded.Py.Int.Mask.{low32, and_mask}
use riscv_vibecoded.Py.Error.{Result, ok, err, ◌>>=◌}
use riscv_vibecoded.Py.Seq.{item}
use riscv_vibecoded.Prelude.{ℕ, zero, suc, List, [], ◌∷◌, ◌≡◌, refl, ap, ◌∙◌, ◌<◌, ◌≤◌, arith}

-- A round: the branch of the kind, and what follows it.
abbrev pub round : Kind → ℤ → List ℤ → State → Result State
round k w a s = dispatch k w a s >>= commit s

pub m32_lem : (x : ℤ) → m32 x ≡ pos (low32 x)
unfolding m32
m32_lem x = and_mask 32 x

module _ (w : ℤ) (s : State) where
  -- An operation on two registers.
  module _ (funct7 funct3 : ℕ) where
    table_op : ℤ → ℤ → Result ℤ
    table_op x y = covered (alu funct7 funct3 x y)

    two_registers-table :
        (r1 r2 : ℕ)
        → (two_registers w (pos r1 ∷ pos r2 ∷ []) s table_op >>= commit s)
          ≡ execute (op funct7 funct3 r1 r2 r1) 2 s
    unfolding two_registers commit blank execute retire write_register write_memory item table_op
    two_registers-table zero r2 = ground arith
    two_registers-table (suc r1) r2 = ground arith

    pub two_registers-executes :
        (f : ℤ → ℤ → Result ℤ) (r1 r2 : ℕ)
        → ((x y : ℤ) → f x y ≡ covered (alu funct7 funct3 x y))
        → (two_registers w (pos r1 ∷ pos r2 ∷ []) s f >>= commit s)
          ≡ execute (op funct7 funct3 r1 r2 r1) 2 s
    unfolding table_op
    two_registers-executes f r1 r2 same =
        ap (λ (g : ℤ → ℤ → Result ℤ). two_registers w (pos r1 ∷ pos r2 ∷ []) s g >>= commit s)
          (λ i x y. same x y i)
        ∙ two_registers-table r1 r2

  -- An operation on a register and an immediate.
  module _ (funct3 imm : ℕ) where
    table_imm : ℤ → ℤ → Result ℤ
    table_imm x y = covered (alu_imm funct3 x imm)

    one_register-table :
        (r : ℕ) (y : ℤ)
        → (one_register w (pos r ∷ y ∷ []) s table_imm >>= commit s)
          ≡ execute (op_imm funct3 r r imm) 2 s
    unfolding one_register commit blank execute retire write_register write_memory item table_imm
    one_register-table zero y = ground arith
    one_register-table (suc r) y = ground arith

    at_imm : (f : ℤ → ℤ → Result ℤ) (y : ℤ) → ℤ → ℤ → Result ℤ
    at_imm f y x z = f x y

    one_register-at :
        (f : ℤ → ℤ → Result ℤ) (r : ℕ) (y : ℤ)
        → one_register w (pos r ∷ y ∷ []) s f ≡ one_register w (pos r ∷ y ∷ []) s (at_imm f y)
    unfolding one_register item at_imm
    one_register-at f r y = refl

    pub one_register-executes :
        (f : ℤ → ℤ → Result ℤ) (r : ℕ) (y : ℤ)
        → ((x : ℤ) → f x y ≡ covered (alu_imm funct3 x imm))
        → (one_register w (pos r ∷ y ∷ []) s f >>= commit s) ≡ execute (op_imm funct3 r r imm) 2 s
    unfolding table_imm at_imm
    one_register-executes f r y same =
        ap (λ (m : Result Retire). m >>= commit s) (one_register-at f r y)
        ∙ ap (λ (g : ℤ → ℤ → Result ℤ). one_register w (pos r ∷ y ∷ []) s g >>= commit s)
            (λ i x z. same x i)
        ∙ one_register-table r y

pub low32-add : (x y : ℤ) → low32 (x +ℤ y) ≡ low32 (x +ℤ pos (low32 y))
unfolding ◌+ℤ◌ ◌%ℤ◌
low32-add (pos a) (pos b) = ground arith
low32-add (pos a) (negsuc b) = ground arith
low32-add (negsuc a) (pos b) = ground arith
low32-add (negsuc a) (negsuc b) = ground arith

pub m32-add : (x y : ℤ) → m32 (x +ℤ y) ≡ pos (low32 (x +ℤ pos (low32 y)))
m32-add x y = m32_lem (x +ℤ y) ∙ ap pos (low32-add x y)

-- The encoder gives an instruction of n bytes, and a round of that kind and arguments does what the
-- instruction does.
abbrev pub Simulated : Result ℤ → ℕ → Kind → List ℤ → State → Type 0
Simulated m n k a s =
    (w : ℤ) × (m ≡ ok w) × (i : Insn) × Encodes w n i × (round k w a s ≡ execute i n s)

-- A number that is a 32-bit word is its own low 32 bits.
pub low32_word : (x : ℤ) → pos 0 ≤ℤ x → x ≤ℤ pos 0xFFFFFFFF → pos (low32 x) ≡ x
unfolding ◌%ℤ◌
low32_word (pos n) lo hi = ground arith
low32_word (negsuc n) lo hi = ground arith
