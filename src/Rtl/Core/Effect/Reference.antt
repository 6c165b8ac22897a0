-- ===== src/Rtl/Core/Effect/Reference.antt =====
-- The effect of an instruction that rtl/core computes, against Isa.Execute, with which the emulator of
-- tools/gen_expected.py is compared.
use riscv_vibecoded.Rtl.Core.Effect.Registers.{
  Matches, some_injective, known_register, retire-Matches, read-lt,
}
use riscv_vibecoded.Rtl.Core.Effect.Arithmetic.{
  AluAgrees, alu_of, alu_imm_of, immediate-lt, register_target, condition_of,
}
use riscv_vibecoded.Emulator.{State}
use riscv_vibecoded.Isa.Insn.{
  Insn, op, op_imm, load_upper, add_upper_pc, jump_link, jump_link_reg, branch_if, load_from,
  store_to, misc_mem, system,
}
use riscv_vibecoded.Rtl.Core.Effect.Immediates.{HasWords}
use riscv_vibecoded.Isa.Execute.{execute, alu, alu_imm, condition, covered, retire}
use riscv_vibecoded.Rtl.Pkg.{AluOp}
use riscv_vibecoded.Rtl.Alu
use riscv_vibecoded.Rtl.Alu.Bounds.{result-lt}
use riscv_vibecoded.Rtl.Decoder.Action.{
  operation, immediate_operation, immediate_value, read, computed, Operand, constant, branch,
  illegal, insn_action,
}
use riscv_vibecoded.Rtl.Core.Effect.{value_of, effect, Effect as Outcome, after}
use riscv_vibecoded.Py.Int.{ℤ, pos, ◌+ℤ◌, ◌%ℤ◌}
use riscv_vibecoded.Py.Int.Mask.{low32}
use riscv_vibecoded.Py.Error.{ok, ◌>>=◌, >>=-eq-ok}
use riscv_vibecoded.Py.Seq.{item}
use riscv_vibecoded.Prelude.{
  ℕ, ◌+◌, ◌%◌, ◌^◌, ◌<◌, Bool, if◌then◌else◌, Option, none, some, subst, ◌≡◌, refl, sym, ap, ◌∙◌,
  arith,
}

module _ (s : State) (pc n : ℕ) (regs : ℕ → ℕ) (m : Matches s pc regs)
    (below : pc + n < 2 ^ 32) where
  following : s.pc +ℤ pos n ≡ pos ((pc + n) % 2 ^ 32)
  unfolding ◌+ℤ◌
  following = rw (m.counter) (ground arith)

  retires :
      (s' : State) (e : Outcome) (rd value next : ℕ) (v z : ℤ)
      → v ≡ pos value
      → z ≡ pos next
      → value < 2 ^ 32
      → retire s rd v z ≡ ok s'
      → some (record { rd = rd; value = value; next = next }) ≡ some e
      → Matches s' e.next (after e regs)
  retires s' e rd value next v z hv hz bounded h eff =
      subst (λ (f : Outcome). Matches s' f.next (after f regs))
        (some_injective (record { rd = rd; value = value; next = next }) e eff)
        (retire-Matches s s' pc regs rd value next m bounded (
          subst (λ (t : ℤ). retire s rd (pos value) t ≡ ok s') hz
            (subst (λ (t : ℤ). retire s rd t z ≡ ok s') hv h)))

  computes :
      (a : Option ℤ) (o : Option AluOp) (x y : Operand) (rd : ℕ) (s' : State) (e : Outcome)
      → AluAgrees a o (value_of x pc regs) (value_of y pc regs)
      → value_of x pc regs < 2 ^ 32
      → value_of y pc regs < 2 ^ 32
      → (covered a >>= (λ (v : ℤ). retire s rd v (s.pc +ℤ pos n))) ≡ ok s'
      → effect (computed o x y rd) pc n regs ≡ some e
      → Matches s' e.next (after e regs)
  unfolding effect
  computes none o x y rd s' e agree hx hy h eff = ground arith
  computes (some v) none x y rd s' e agree hx hy h eff = ground arith
  computes (some v) (some o) x y rd s' e agree hx hy h eff =
      retires s' e rd (Alu.result o (value_of x pc regs) (value_of y pc regs)) ((pc + n) % 2 ^ 32) v
        (s.pc +ℤ pos n) agree following
        (result-lt o (value_of x pc regs) (value_of y pc regs) hx hy) h eff

  jump_target : (imm : ℕ) → pos (low32 (s.pc +ℤ pos imm)) ≡ pos ((pc + imm) % 2 ^ 32)
  unfolding ◌+ℤ◌ ◌%ℤ◌
  jump_target imm = rw (m.counter) (ground arith)

  branches :
      (s' : State) (e : Outcome) (funct3 : ℕ) (x y : Operand) (imm : ℕ) (taken : Bool)
      → taken ≡ Alu.branch_taken funct3 (value_of x pc regs) (value_of y pc regs)
      → ok (record s { pc = if taken then pos (low32 (s.pc +ℤ pos imm)) else s.pc +ℤ pos n })
        ≡ ok s'
      → effect (branch funct3 x y imm) pc n regs ≡ some e
      → Matches s' e.next (after e regs)
  unfolding effect retire
  branches s' e funct3 x y imm taken same h eff =
      retires s' e 0 0
        (if Alu.branch_taken funct3 (value_of x pc regs) (value_of y pc regs)
          then (pc + imm) % 2 ^ 32
          else (pc + n) % 2 ^ 32)
        (pos 0) (if taken then pos (low32 (s.pc +ℤ pos imm)) else s.pc +ℤ pos n) refl
        (rw same (rw (jump_target imm, following) (ground arith))) (ground arith) h eff

none_some : {A : Type 0} → (x : A) → none ≡ some x → {B : Type 0} → B
none_some x h = ground arith

no_effect_load :
    (funct3 rs1 rd imm pc n : ℕ) (regs : ℕ → ℕ)
    → effect (insn_action (load_from funct3 rs1 rd imm)) pc n regs ≡ none
unfolding effect insn_action
no_effect_load funct3 rs1 rd imm pc n regs = ground arith

no_effect_store :
    (funct3 rs1 rs2 imm pc n : ℕ) (regs : ℕ → ℕ)
    → effect (insn_action (store_to funct3 rs1 rs2 imm)) pc n regs ≡ none
unfolding effect insn_action
no_effect_store funct3 rs1 rs2 imm pc n regs = ground arith

-- Where the reference runs an instruction and the core has an effect for it, they agree.
pub execute-Matches :
    (i : Insn) (s s' : State) (pc n : ℕ) (regs : ℕ → ℕ) (e : Outcome)
    → Matches s pc regs
    → pc + n < 2 ^ 32
    → HasWords i
    → execute i n s ≡ ok s'
    → effect (insn_action i) pc n regs ≡ some e
    → Matches s' e.next (after e regs)
unfolding execute effect insn_action value_of Alu.result
execute-Matches (op funct7 funct3 rs1 rs2 rd) s s' pc n regs e m below words h eff =
    let (x, hx, h1) = >>=-eq-ok (item s.regs (pos rs1)) _ h in
    let (y, hy, h2) = >>=-eq-ok (item s.regs (pos rs2)) _ h1 in
    let x_eq = known_register s pc regs rs1 x m hx in
    let y_eq = known_register s pc regs rs2 y m hy in
    computes s pc n regs m below (alu funct7 funct3 x y) (operation funct7 funct3) (read rs1)
      (read rs2) rd s' e
      (alu_of funct7 funct3 x y (value_of (read rs1) pc regs) (value_of (read rs2) pc regs) x_eq
        y_eq (read-lt rs1 pc regs m.words) (read-lt rs2 pc regs m.words))
      (read-lt rs1 pc regs m.words) (read-lt rs2 pc regs m.words) h2 eff
execute-Matches (op_imm funct3 rs1 rd imm) s s' pc n regs e m below words h eff =
    let (x, hx, h1) = >>=-eq-ok (item s.regs (pos rs1)) _ h in
    computes s pc n regs m below (alu_imm funct3 x imm) (immediate_operation funct3 imm) (read rs1)
      (constant (immediate_value funct3 imm)) rd s' e
      (alu_imm_of funct3 x (value_of (read rs1) pc regs) imm (known_register s pc regs rs1 x m hx)
        (read-lt rs1 pc regs m.words) words.0 words.1)
      (read-lt rs1 pc regs m.words) (immediate-lt funct3 imm words.0) h1 eff
execute-Matches (load_upper rd imm) s s' pc n regs e m below words h eff =
    retires s pc n regs m below s' e rd ((0 + imm) % 2 ^ 32) ((pc + n) % 2 ^ 32) (pos imm)
      (s.pc +ℤ pos n) (ap pos (omega arith)) (following s pc n regs m below) (omega arith) h eff
execute-Matches (add_upper_pc rd imm) s s' pc n regs e m below words h eff = ground arith
execute-Matches (jump_link rd imm) s s' pc n regs e m below words h eff =
    retires s pc n regs m below s' e rd ((pc + n) % 2 ^ 32) ((pc + imm) % 2 ^ 32) (s.pc +ℤ pos n) _
      (following s pc n regs m below) (jump_target s pc n regs m below imm) (omega arith) h eff
execute-Matches (jump_link_reg rs1 rd imm) s s' pc n regs e m below words h eff =
    let (x, hx, h1) = >>=-eq-ok (item s.regs (pos rs1)) _ h in
    retires s pc n regs m below s' e rd ((pc + n) % 2 ^ 32) _ (s.pc +ℤ pos n) _
      (following s pc n regs m below)
      (register_target x (value_of (read rs1) pc regs) imm (known_register s pc regs rs1 x m hx))
      (omega arith) h1 eff
execute-Matches (branch_if funct3 rs1 rs2 imm) s s' pc n regs e m below words h eff =
    let (x, hx, h1) = >>=-eq-ok (item s.regs (pos rs1)) _ h in
    let (y, hy, h2) = >>=-eq-ok (item s.regs (pos rs2)) _ h1 in
    let (taken, ht, h3) = >>=-eq-ok (covered (condition funct3 x y)) _ h2 in
    let (valid, same) =
      condition_of funct3 x y (value_of (read rs1) pc regs) (value_of (read rs2) pc regs) taken
        (known_register s pc regs rs1 x m hx) (known_register s pc regs rs2 y m hy) ht in
    branches s pc n regs m below s' e funct3 (read rs1) (read rs2) imm taken same h3 (
      subst
        (λ (b : Bool).
          effect (if b then illegal else branch funct3 (read rs1) (read rs2) imm) pc n regs
          ≡ some e)
        valid eff)
execute-Matches (load_from funct3 rs1 rd imm) s s' pc n regs e m below words h eff =
    none_some e (sym (no_effect_load funct3 rs1 rd imm pc n regs) ∙ eff)
execute-Matches (store_to funct3 rs1 rs2 imm) s s' pc n regs e m below words h eff =
    none_some e (sym (no_effect_store funct3 rs1 rs2 imm pc n regs) ∙ eff)
execute-Matches (misc_mem funct3) s s' pc n regs e m below words h eff = ground arith
execute-Matches (system funct3 addr rs1 rd) s s' pc n regs e m below words h eff = ground arith
