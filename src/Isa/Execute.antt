-- ===== src/Isa/Execute.antt =====
-- What instructions do to registers, memory and program counter: a reference for the emulator of
-- tools/gen_expected.py, written from the instruction set. It covers the instructions that the kinds
-- of the emulator stand for; for any other it has no result.
use riscv_vibecoded.Isa.Insn.{
  Insn, op, op_imm, load_upper, jump_link, jump_link_reg, branch_if, load_from, store_to,
}
use riscv_vibecoded.Emulator.{State}
use riscv_vibecoded.Py.Int.{ℤ, pos, negsuc, ◌+ℤ◌, ◌-ℤ◌, ◌&ℤ◌, ◌|ℤ◌, ◌^ℤ◌, ◌<<ℤ◌, ◌>>ℤ◌, eqb_ℤ}
use riscv_vibecoded.Py.Int.Mask.{low32}
use riscv_vibecoded.Py.Error.{Result, ok, err, value_error, ◌>>=◌}
use riscv_vibecoded.Py.Equality.{int_eq}
use riscv_vibecoded.Py.Dict.{at, put}
use riscv_vibecoded.Py.Seq.{item, set_item}
use riscv_vibecoded.Prelude.{
  ℕ, zero, suc, Bool, not, ◌==◌, ◌&&◌, if◌then◌else◌, ltb, Option, some, none,
}

-- An operation on two 32-bit words by funct7 and funct3.
unfoldable pub alu : ℕ → ℕ → ℤ → ℤ → Option ℤ
alu funct7 funct3 x y =
    if funct7 == 0x20 && funct3 == 0
    then some (pos (low32 (x -ℤ y)))
    else if not (funct7 == 0)
    then none
    else if funct3 == 0
    then some (pos (low32 (x +ℤ y)))
    else if funct3 == 4
    then some (x ^ℤ y)
    else if funct3 == 6
    then some (x |ℤ y)
    else if funct3 == 7
    then some (x &ℤ y)
    else none

-- The shifts to the left and, logically, to the right, by an amount below 32.
unfoldable pub alu_imm : ℕ → ℤ → ℕ → Option ℤ
unfolding alu
alu_imm funct3 x imm =
    if funct3 == 1
    then some (pos (low32 (x <<ℤ imm)))
    else if funct3 == 5
    then (if ltb imm 32 then some (x >>ℤ imm) else none)
    else alu 0 funct3 x (pos imm)

unfoldable pub condition : ℕ → ℤ → ℤ → Option Bool
condition funct3 x y =
    if funct3 == 0 then some (eqb_ℤ x y) else if funct3 == 1 then some (not (eqb_ℤ x y)) else none

-- Python's result for what is not covered.
abbrev pub covered {ℓ} : {A : Type ℓ} → Option A → Result A
covered none = err value_error
covered (some a) = ok a

-- Write a register, unless it is x0, and go on at an address.
unfoldable pub retire : State → ℕ → ℤ → ℤ → Result State
retire s zero v next = ok (record s { pc = next })
retire s (suc rd) v next = do
  regs ← set_item s.regs (pos (suc rd)) v
  ok (record s { regs = regs; pc = next })

-- An instruction of n bytes.
unfoldable pub execute : Insn → ℕ → State → Result State
unfolding alu alu_imm condition retire
execute (op funct7 funct3 rs1 rs2 rd) n s = do
  x ← item s.regs (pos rs1)
  y ← item s.regs (pos rs2)
  v ← covered (alu funct7 funct3 x y)
  retire s rd v (s.pc +ℤ pos n)
execute (op_imm funct3 rs1 rd imm) n s = do
  x ← item s.regs (pos rs1)
  v ← covered (alu_imm funct3 x imm)
  retire s rd v (s.pc +ℤ pos n)
execute (load_upper rd imm) n s = retire s rd (pos imm) (s.pc +ℤ pos n)
execute (jump_link rd imm) n s = retire s rd (s.pc +ℤ pos n) (pos (low32 (s.pc +ℤ pos imm)))
execute (jump_link_reg rs1 rd imm) n s = do
  x ← item s.regs (pos rs1)
  retire s rd (s.pc +ℤ pos n) (pos (low32 (x +ℤ pos imm)) &ℤ negsuc 1)
execute (branch_if funct3 rs1 rs2 imm) n s = do
  x ← item s.regs (pos rs1)
  y ← item s.regs (pos rs2)
  taken ← covered (condition funct3 x y)
  ok (record s { pc = if taken then pos (low32 (s.pc +ℤ pos imm)) else s.pc +ℤ pos n })
execute (load_from funct3 rs1 rd imm) n s =
    if funct3 == 2
    then (do
      x ← item s.regs (pos rs1)
      v ← at (pos (low32 (x +ℤ pos imm))) s.mem
      retire s rd v (s.pc +ℤ pos n))
    else err value_error
execute (store_to funct3 rs1 rs2 imm) n s =
    if funct3 == 2
    then (do
      x ← item s.regs (pos rs1)
      y ← item s.regs (pos rs2)
      ok (record s { mem = put (pos (low32 (x +ℤ pos imm))) y s.mem; pc = s.pc +ℤ pos n }))
    else err value_error
execute _ n s = err value_error
