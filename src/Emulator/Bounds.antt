-- ===== src/Emulator/Bounds.antt =====
-- tools/gen_expected.py, `emulate`: every value stays a 32-bit word, but for the shifts of csrai.
pub mod Words
pub mod Rows
pub mod Run
pub mod Table
