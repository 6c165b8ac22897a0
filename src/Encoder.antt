-- ===== src/Encoder.antt =====
-- tools/riscv_enc.py: the instruction encoders. Every argument is a Python `int`, with no
-- restriction; a `ValueError` is a value. RV32I is in Base, RV32C in Compressed, RV32M in Mul and
-- Zicsr in Csr.
pub mod Base
pub mod Compressed
pub mod Mul
pub mod Csr
pub mod SelfCheck
use riscv_vibecoded.Py.Int.{ℤ, pos, ◌&ℤ◌}

-- _mask32
unfoldable pub mask32 : ℤ → ℤ
mask32 v = v &ℤ pos 0xFFFFFFFF
