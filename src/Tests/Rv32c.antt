-- ===== src/Tests/Rv32c.antt =====
-- Examples of the 16-bit helpers of tools/riscv_enc.py.
use riscv_vibecoded.Encoder.Compressed.{c_andi, c_j, c_jal}
use riscv_vibecoded.Isa.Insn.{op_imm, jump_link, Encodes}
use riscv_vibecoded.RoundTrip.Outcome.{Succeeds}
use riscv_vibecoded.RoundTrip.Short.{c_andi-Encodes}
use riscv_vibecoded.RoundTrip.Scattered.{c_jumps-Encodes}
use riscv_vibecoded.Py.Int.{pos, negsuc, ◌%ℤ◌}
use riscv_vibecoded.Prelude.{refl, arith}

c_andi-Encodes_example : Succeeds (c_andi (pos 9) (negsuc 1)) 2 (op_imm 7 9 9 0xFFFFFFFE)
unfolding ◌%ℤ◌
c_andi-Encodes_example =
    c_andi-Encodes 9 (negsuc 1) (omega arith) (omega arith) (omega arith) (omega arith)

c_jumps-Encodes_example :
    Encodes (c_j (negsuc 9)) 2 (jump_link 0 0xFFFFFFF6)
    × Encodes (c_jal (negsuc 9)) 2 (jump_link 1 0xFFFFFFF6)
unfolding ◌%ℤ◌
c_jumps-Encodes_example = c_jumps-Encodes (negsuc 9) refl (omega arith) (omega arith)
