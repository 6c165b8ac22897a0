-- ===== src/Rtl/Core/Effect/Wires.antt =====
-- The wires of rtl/core/rv32i_core.sv give the effect of the action of the bundle.
use riscv_vibecoded.Rtl.Pkg.{AluOp, complement}
use riscv_vibecoded.Rtl.Alu
use riscv_vibecoded.Rtl.Regfile
use riscv_vibecoded.Rtl.Decoder.Outputs.{Bundle}
use riscv_vibecoded.Rtl.Decoder.Classes.{IsSound}
use riscv_vibecoded.Rtl.Decoder.Action.{
  Operand, Action, compute, jump, jump_register, branch, load, store, csr, ecall, ebreak, mret,
  nothing, illegal, read, operand_a, operand_b, target, bundle_action,
}
use riscv_vibecoded.Rtl.Core.State.{Core}
use riscv_vibecoded.Rtl.Core.Wires.{
  alu_a, alu_b, alu_result_comb, branch_taken, branch_target, seq_pc,
}
use riscv_vibecoded.Rtl.Core.Trap.{trap_pending}
use riscv_vibecoded.Rtl.Core.Retire.{next_pc, register_write, register_value}
use riscv_vibecoded.Rtl.Core.Effect.{
  value_of, Effect as Outcome, effect, after, bytes_of, HasOperands, read_value, select_a_value,
  select_b_value,
}
use riscv_vibecoded.Rtl.Core.Effect.Flags.{
  compute_flags, jump_flags, jump_register_flags, branch_flags, nothing_flags,
}
use riscv_vibecoded.Prelude.{
  ℕ, ◌+◌, ◌%◌, ◌^◌, bit_and, false, not, ◌==◌, ◌&&◌, if◌then◌else◌, Option, none, some, ◌≡◌, arith,
  ap, ◌∙◌,
}

-- The next address and the registers are those of e.
abbrev pub Gives : (ℕ → ℕ) → Bundle → (ℕ → ℕ) → Core → Outcome → Type 0
Gives memory d regs x e =
    (next_pc d x ≡ e.next)
    × ((i : ℕ) → Regfile.clock (register_write memory d x) regs i ≡ after e regs i)

write_after :
    (memory : ℕ → ℕ) (d : Bundle) (regs : ℕ → ℕ) (x : Core) (rd value : ℕ)
    → trap_pending d x ≡ false
    → target d ≡ rd
    → register_value memory d x ≡ value
    → (i : ℕ)
    → Regfile.clock (register_write memory d x) regs i
      ≡ (if not (rd == 0) && i == rd then value else regs i)
unfolding register_write Regfile.clock
write_after memory d regs x rd value quiet to same i = rw (quiet, same) (ground arith)

-- No register is written.
pub no_write :
    (memory : ℕ → ℕ) (d : Bundle) (regs : ℕ → ℕ) (x : Core) (i : ℕ)
    → d.rd_we ≡ false
    → Regfile.clock (register_write memory d x) regs i ≡ regs i
unfolding register_write Regfile.clock
no_write memory d regs x i h = ground arith

pub alu_value :
    (d : Bundle) (regs : ℕ → ℕ) (x : Core) (o : AluOp) (a b : Operand)
    → HasOperands d regs x
    → d.alu_op ≡ o
    → operand_a d d.alu_a_sel ≡ a
    → operand_b d d.alu_b_sel ≡ b
    → alu_result_comb d x ≡ Alu.result o (value_of a x.pc_exe regs) (value_of b x.pc_exe regs)
unfolding alu_result_comb alu_a alu_b
alu_value d regs x o a b ops ho ha hb =
    let left =
      select_a_value d regs x d.alu_a_sel ops ∙ ap (λ (t : Operand). value_of t x.pc_exe regs) ha in
    let right =
      select_b_value d regs x d.alu_b_sel ops ∙ ap (λ (t : Operand). value_of t x.pc_exe regs) hb in
    rw (left, right)
      (ap (λ (t : AluOp). Alu.result t (value_of a x.pc_exe regs) (value_of b x.pc_exe regs)) ho)

abbrev pub sequential : Bundle → Core → ℕ
sequential d x = (x.pc_exe + bytes_of d) % 2 ^ 32

compute-Gives :
    (memory : ℕ → ℕ) (d : Bundle) (regs : ℕ → ℕ) (x : Core) (o : AluOp) (a b : Operand) (rd : ℕ)
    → HasOperands d regs x
    → trap_pending d x ≡ false
    → bundle_action d ≡ compute o a b rd
    → Gives memory d regs x (record {
      rd = rd;
      value = Alu.result o (value_of a x.pc_exe regs) (value_of b x.pc_exe regs);
      next = sequential d x;
    })
unfolding next_pc register_value seq_pc branch_taken
compute-Gives memory d regs x o a b rd ops quiet act =
    let flags = compute_flags d o a b rd act in
    let value = alu_value d regs x o a b ops flags.0 flags.1 flags.2 in
    (
      ground (arith, flags.4),
      write_after memory d regs x rd _ quiet flags.3 (ground (arith, flags.4) ∙ value),
    )

jump-Gives :
    (memory : ℕ → ℕ) (d : Bundle) (regs : ℕ → ℕ) (x : Core) (rd imm : ℕ)
    → IsSound d
    → trap_pending d x ≡ false
    → bundle_action d ≡ jump rd imm
    → Gives memory d regs x
        (record { rd = rd; value = sequential d x; next = (x.pc_exe + imm) % 2 ^ 32 })
unfolding next_pc register_value seq_pc branch_target
jump-Gives memory d regs x rd imm sound quiet act =
    let flags = jump_flags d rd imm sound act in
    (ground (arith, flags), write_after memory d regs x rd _ quiet flags.1 (ground (arith, flags)))

jump_register-Gives :
    (memory : ℕ → ℕ) (d : Bundle) (regs : ℕ → ℕ) (x : Core) (rs1 rd imm : ℕ)
    → HasOperands d regs x
    → IsSound d
    → trap_pending d x ≡ false
    → bundle_action d ≡ jump_register rs1 rd imm
    → Gives memory d regs x (record {
      rd = rd;
      value = sequential d x;
      next = bit_and ((value_of (read rs1) x.pc_exe regs + imm) % 2 ^ 32) (complement 1);
    })
unfolding next_pc register_value seq_pc branch_target
jump_register-Gives memory d regs x rs1 rd imm ops sound quiet act =
    let flags = jump_register_flags d rs1 rd imm sound act in
    let source : x.rs1 ≡ value_of (read rs1) x.pc_exe regs =
      ops.operand_1 ∙ ap (λ (t : ℕ). Regfile.read regs t) flags.2 ∙ read_value rs1 x.pc_exe regs in
    (
      rw (← source, ← flags.0) (ground (arith, flags)),
      write_after memory d regs x rd _ quiet flags.1 (ground (arith, flags)),
    )

branch-Gives :
    (memory : ℕ → ℕ) (d : Bundle) (regs : ℕ → ℕ) (x : Core) (funct3 : ℕ) (a b : Operand) (imm : ℕ)
    → HasOperands d regs x
    → IsSound d
    → trap_pending d x ≡ false
    → bundle_action d ≡ branch funct3 a b imm
    → Gives memory d regs x (record {
      rd = 0;
      value = 0;
      next =
          if Alu.branch_taken funct3 (value_of a x.pc_exe regs) (value_of b x.pc_exe regs)
          then (x.pc_exe + imm) % 2 ^ 32
          else sequential d x;
    })
unfolding next_pc seq_pc branch_target branch_taken alu_a alu_b
branch-Gives memory d regs x funct3 a b imm ops sound quiet act =
    let flags = branch_flags d funct3 a b imm sound act in
    let left =
      select_a_value d regs x d.alu_a_sel ops
      ∙ ap (λ (t : Operand). value_of t x.pc_exe regs) flags.1 in
    let right =
      select_b_value d regs x d.alu_b_sel ops
      ∙ ap (λ (t : Operand). value_of t x.pc_exe regs) flags.2 in
    (
      rw (← left, ← right, ← flags.0, ← flags.3) (ground (arith, flags)),
      λ i. no_write memory d regs x i (ground (arith, flags.5)),
    )

nothing-Gives :
    (memory : ℕ → ℕ) (d : Bundle) (regs : ℕ → ℕ) (x : Core)
    → IsSound d
    → trap_pending d x ≡ false
    → bundle_action d ≡ nothing
    → Gives memory d regs x (record { rd = 0; value = 0; next = sequential d x })
unfolding next_pc seq_pc branch_taken
nothing-Gives memory d regs x sound quiet act =
    let flags = nothing_flags d sound act in
    (ground (arith, flags), λ i. no_write memory d regs x i (ground (arith, flags)))

abbrev pub GivesAny : (ℕ → ℕ) → Bundle → (ℕ → ℕ) → Core → Option Outcome → Type 0
GivesAny memory d regs x none = Unit
GivesAny memory d regs x (some e) = Gives memory d regs x e

-- By the action.
pub action-GivesAny :
    (memory : ℕ → ℕ) (d : Bundle) (regs : ℕ → ℕ) (x : Core) (act : Action)
    → HasOperands d regs x
    → IsSound d
    → trap_pending d x ≡ false
    → bundle_action d ≡ act
    → GivesAny memory d regs x (effect act x.pc_exe (bytes_of d) regs)
unfolding effect
action-GivesAny memory d regs x (compute o a b rd) ops sound quiet act =
    compute-Gives memory d regs x o a b rd ops quiet act
action-GivesAny memory d regs x (jump rd imm) ops sound quiet act =
    jump-Gives memory d regs x rd imm sound quiet act
action-GivesAny memory d regs x (jump_register rs1 rd imm) ops sound quiet act =
    jump_register-Gives memory d regs x rs1 rd imm ops sound quiet act
action-GivesAny memory d regs x (branch funct3 a b imm) ops sound quiet act =
    branch-Gives memory d regs x funct3 a b imm ops sound quiet act
action-GivesAny memory d regs x nothing ops sound quiet act =
    nothing-Gives memory d regs x sound quiet act
action-GivesAny memory d regs x (load funct3 o a b rd) ops sound quiet act = tt
action-GivesAny memory d regs x (store funct3 o a b rs2) ops sound quiet act = tt
action-GivesAny memory d regs x (csr o i addr rs1 rd) ops sound quiet act = tt
action-GivesAny memory d regs x ecall ops sound quiet act = tt
action-GivesAny memory d regs x ebreak ops sound quiet act = tt
action-GivesAny memory d regs x mret ops sound quiet act = tt
action-GivesAny memory d regs x illegal ops sound quiet act = tt
