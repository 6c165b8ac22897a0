-- ===== src/RoundTrip.antt =====
-- Every encoder of tools/riscv_enc.py gives a word that reads back as the instruction meant.
pub mod Base
pub mod Jump
pub mod Compressed
pub mod Short
pub mod Scattered
pub mod Memory
pub mod Errors
pub mod System
pub mod Outcome
