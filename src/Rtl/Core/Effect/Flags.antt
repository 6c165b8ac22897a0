-- ===== src/Rtl/Core/Effect/Flags.antt =====
-- The control signals of rtl/core/decoder.sv that an action fixes.
use riscv_vibecoded.Rtl.Pkg.{AluOp}
use riscv_vibecoded.Rtl.Decoder.Outputs.{Bundle}
use riscv_vibecoded.Rtl.Decoder.Classes.{IsSound}
use riscv_vibecoded.Rtl.Decoder.Action.{
  Operand, compute, jump, jump_register, branch, nothing, operand_a, operand_b, target,
  bundle_action,
}
use riscv_vibecoded.Prelude.{ℕ, true, false, ◌||◌, ◌≡◌, arith}

pub compute_flags :
    (d : Bundle) (o : AluOp) (a b : Operand) (rd : ℕ)
    → bundle_action d ≡ compute o a b rd
    → (d.alu_op ≡ o)
      × (operand_a d d.alu_a_sel ≡ a)
      × (operand_b d d.alu_b_sel ≡ b)
      × (target d ≡ rd)
      × ((d.is_mret || d.is_csr || d.is_jal || d.is_jalr || d.is_branch || d.is_load) ≡ false)
unfolding bundle_action
compute_flags d o a b rd h = (ground arith, ground arith, ground arith, ground arith, ground arith)

pub jump_flags :
    (d : Bundle) (rd imm : ℕ)
    → IsSound d
    → bundle_action d ≡ jump rd imm
    → (d.imm ≡ imm)
      × (target d ≡ rd)
      × (d.is_jal ≡ true)
      × ((d.is_mret || d.is_csr || d.is_jalr || d.is_load) ≡ false)
unfolding bundle_action
jump_flags d rd imm sound h = (ground arith, ground arith, ground arith, ground arith)

pub jump_register_flags :
    (d : Bundle) (rs1 rd imm : ℕ)
    → IsSound d
    → bundle_action d ≡ jump_register rs1 rd imm
    → (d.imm ≡ imm)
      × (target d ≡ rd)
      × (d.rs1_addr ≡ rs1)
      × (d.is_jalr ≡ true)
      × ((d.is_mret || d.is_csr || d.is_load) ≡ false)
unfolding bundle_action
jump_register_flags d rs1 rd imm sound h =
    (ground arith, ground arith, ground arith, ground arith, ground arith)

pub branch_flags :
    (d : Bundle) (funct3 : ℕ) (a b : Operand) (imm : ℕ)
    → IsSound d
    → bundle_action d ≡ branch funct3 a b imm
    → (d.branch_funct3 ≡ funct3)
      × (operand_a d d.alu_a_sel ≡ a)
      × (operand_b d d.alu_b_sel ≡ b)
      × (d.imm ≡ imm)
      × (d.is_branch ≡ true)
      × ((d.is_mret || d.is_jal || d.is_jalr || d.rd_we) ≡ false)
unfolding bundle_action
branch_flags d funct3 a b imm sound h =
    (ground arith, ground arith, ground arith, ground arith, ground arith, ground arith)

pub nothing_flags :
    (d : Bundle)
    → IsSound d
    → bundle_action d ≡ nothing
    → (d.is_mret || d.is_jal || d.is_jalr || d.is_branch || d.rd_we) ≡ false
unfolding bundle_action
nothing_flags d sound h = ground arith
