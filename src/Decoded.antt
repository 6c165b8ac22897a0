-- ===== src/Decoded.antt =====
-- What the words of tools/riscv_enc.py read back as, over their fields.
pub mod Compressed
pub mod Scattered
pub mod Memory
