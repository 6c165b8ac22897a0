-- ===== src/Tests/Rv32i.antt =====
-- Examples of the 32-bit helpers of tools/riscv_enc.py.
use riscv_vibecoded.Encoder.Base.{itype, jal, jalr, branch, load, store}
use riscv_vibecoded.Isa.Insn.{
  op_imm, jump_link, jump_link_reg, branch_if, load_from, store_to, Encodes,
}
use riscv_vibecoded.RoundTrip.Base.{i_format-Encodes}
use riscv_vibecoded.RoundTrip.Jump.{jal-Encodes, branch-Encodes, store-Encodes}
use riscv_vibecoded.Py.Int.{pos, negsuc, ◌%ℤ◌}
use riscv_vibecoded.Prelude.{refl, arith}

jal-Encodes_example : Encodes (jal (negsuc 2049) (pos 1)) 4 (jump_link 1 0xFFFFF7FE)
unfolding ◌%ℤ◌
jal-Encodes_example = jal-Encodes (negsuc 2049) 1 (omega arith) refl (omega arith) (omega arith)

-- bne x8, x0, -4
branch-Encodes_example :
    Encodes (branch (pos 1) (pos 8) (pos 0) (negsuc 3)) 4 (branch_if 1 8 0 0xFFFFFFFC)
unfolding ◌%ℤ◌
branch-Encodes_example =
    branch-Encodes 1 8 0 (negsuc 3) (omega arith) (omega arith) (omega arith) refl (omega arith)
      (omega arith)

store-Encodes_example :
    Encodes (store (pos 2) (pos 2) (pos 5) (negsuc 3)) 4 (store_to 2 2 5 0xFFFFFFFC)
unfolding ◌%ℤ◌
store-Encodes_example =
    store-Encodes 2 2 5 (negsuc 3) (omega arith) (omega arith) (omega arith) (omega arith)
      (omega arith)

-- slti, lw and jalr with registers x2 and x5 and -4
i_format-Encodes_example :
    Encodes (itype (pos 2) (pos 2) (pos 5) (negsuc 3)) 4 (op_imm 2 2 5 0xFFFFFFFC)
    × Encodes (load (pos 2) (pos 2) (pos 5) (negsuc 3)) 4 (load_from 2 2 5 0xFFFFFFFC)
    × Encodes (jalr (pos 2) (pos 5) (negsuc 3)) 4 (jump_link_reg 2 5 0xFFFFFFFC)
unfolding ◌%ℤ◌
i_format-Encodes_example =
    i_format-Encodes 2 2 5 (negsuc 3) (omega arith) (omega arith) (omega arith) (omega arith)
      (omega arith)
