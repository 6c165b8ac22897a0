-- ===== src/Rtl.antt =====
-- rtl/core: the modules of the core as functions, and what they do together. A word of w bits is a
-- number below 2 ^ w, a single control bit a Bool; a module's registers are a record, `reset` their
-- values after a reset and `clock` one rising edge. Non-blocking assignments read the old record.
pub mod Pkg
pub mod Alu
pub mod Lsu
pub mod Regfile
pub mod CsrFile
pub mod Fetch
pub mod Decoder
pub mod Core
