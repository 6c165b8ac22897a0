-- ===== src/Isa.antt =====
-- The instruction set as an independent description: the fields of a word as the RTL decoder
-- (rtl/core/decoder.sv) takes them out, the instructions that words stand for, a compressed one as
-- the base instruction that it abbreviates.
pub mod Fields
pub mod Insn
pub mod Execute
