-- ===== src/Words.antt =====
-- The words that tools/riscv_enc.py builds, as sums of their fields.
pub mod Chain
pub mod Base
pub mod Jump
pub mod Compressed
pub mod Scattered
pub mod Branch
pub mod Memory
pub mod Stack
pub mod StackPointer
