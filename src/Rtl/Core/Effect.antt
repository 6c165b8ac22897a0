-- ===== src/Rtl/Core/Effect.antt =====
-- What an action does to the registers and the program counter, and that the wires of
-- rtl/core/rv32i_core.sv give that for a bundle with the action.
pub mod Flags
pub mod Wires
pub mod Insn
pub mod Meaning
pub mod Stores
pub mod Immediates
pub mod Registers
pub mod Arithmetic
pub mod Reference
pub mod Quiet
pub mod Emulated
pub mod Programs
use riscv_vibecoded.Rtl.Pkg.{
  AluOp, AluASel, AluBSel, opa_x0, opa_rs1, opa_pc, opb_rs2, opb_imm, opb_uimm, complement,
}
use riscv_vibecoded.Rtl.Alu
use riscv_vibecoded.Rtl.Regfile
use riscv_vibecoded.Rtl.Decoder.Outputs.{Bundle}
use riscv_vibecoded.Rtl.Decoder.Action.{
  Operand, register, counter, constant, Action, compute, jump, jump_register, branch, load, store,
  csr, ecall, ebreak, mret, nothing, illegal, read, operand_a, operand_b, target, bundle_action,
}
use riscv_vibecoded.Rtl.Decoder.Classes.{IsSound}
use riscv_vibecoded.Rtl.Core.State.{Core}
use riscv_vibecoded.Rtl.Core.Wires.{
  select_a, select_b, alu_a, alu_b, alu_result_comb, branch_taken, branch_target, seq_pc,
}
use riscv_vibecoded.Rtl.Core.Trap.{trap_pending}
use riscv_vibecoded.Rtl.Core.Retire.{next_pc, register_write, register_value}
use riscv_vibecoded.Prelude.{
  ℕ, ◌+◌, ◌%◌, ◌^◌, bit_and, Bool, true, false, not, ◌==◌, ◌&&◌, ◌||◌, if◌then◌else◌, Option, none,
  some, ◌≡◌, ◌⊎◌, inl, inr, refl, arith, sym, ap, ◌∙◌, Bool-cases,
}

unfoldable pub value_of : Operand → ℕ → (ℕ → ℕ) → ℕ
value_of (register r) pc regs = regs r
value_of counter pc regs = pc
value_of (constant c) pc regs = c

pub record Effect : Type 0 where
  pub rd : ℕ
  pub value : ℕ
  pub next : ℕ

-- An instruction of n bytes that reads and writes registers only; `none` for any other.
unfoldable pub effect : Action → (pc n : ℕ) → (ℕ → ℕ) → Option Effect
effect (compute o a b rd) pc n regs = some (record {
  rd = rd;
  value = Alu.result o (value_of a pc regs) (value_of b pc regs);
  next = (pc + n) % 2 ^ 32;
})
effect (jump rd imm) pc n regs =
    some (record { rd = rd; value = (pc + n) % 2 ^ 32; next = (pc + imm) % 2 ^ 32 })
effect (jump_register rs1 rd imm) pc n regs = some (record {
  rd = rd;
  value = (pc + n) % 2 ^ 32;
  next = bit_and ((value_of (read rs1) pc regs + imm) % 2 ^ 32) (complement 1);
})
effect (branch funct3 a b imm) pc n regs = some (record {
  rd = 0;
  value = 0;
  next =
      if Alu.branch_taken funct3 (value_of a pc regs) (value_of b pc regs)
      then (pc + imm) % 2 ^ 32
      else (pc + n) % 2 ^ 32;
})
effect nothing pc n regs = some (record { rd = 0; value = 0; next = (pc + n) % 2 ^ 32 })
effect _ pc n regs = none

-- Register i after the effect.
abbrev pub after : Effect → (ℕ → ℕ) → ℕ → ℕ
after e regs i = if not (e.rd == 0) && i == e.rd then e.value else regs i

abbrev pub bytes_of : Bundle → ℕ
bytes_of d = if d.is_c then 2 else 4

-- x is in PH_EX with the operands of d, read from regs.
pub record HasOperands (d : Bundle) (regs : ℕ → ℕ) (x : Core) : Type 0 where
  pub operand_1 : x.rs1 ≡ Regfile.read regs d.rs1_addr
  pub operand_2 : x.rs2 ≡ Regfile.read regs d.rs2_addr

pub read_value : (r pc : ℕ) (regs : ℕ → ℕ) → Regfile.read regs r ≡ value_of (read r) pc regs
unfolding Regfile.read value_of
read_value r pc regs = ground arith

pub select_a_value :
    (d : Bundle) (regs : ℕ → ℕ) (x : Core) (sel : AluASel)
    → HasOperands d regs x
    → select_a sel x ≡ value_of (operand_a d sel) x.pc_exe regs
unfolding value_of
select_a_value d regs x opa_x0 h = refl
select_a_value d regs x opa_rs1 h = h.operand_1 ∙ read_value d.rs1_addr x.pc_exe regs
select_a_value d regs x opa_pc h = refl

pub select_b_value :
    (d : Bundle) (regs : ℕ → ℕ) (x : Core) (sel : AluBSel)
    → HasOperands d regs x
    → select_b sel d x ≡ value_of (operand_b d sel) x.pc_exe regs
unfolding value_of
select_b_value d regs x opb_rs2 h = h.operand_2 ∙ read_value d.rs2_addr x.pc_exe regs
select_b_value d regs x opb_imm h = refl
select_b_value d regs x opb_uimm h = refl
