-- ===== src/Formal.antt =====
-- scripts/formal_m1_gen.py and scripts/formal_m2_gen.py: the checks of riscv-formal, generated and
-- rewritten. The two scripts have the same code with different constants.
pub mod Path
pub mod Rewrite
pub mod Generate
pub mod Reset
pub mod ReadLine
pub mod Native
pub mod Written
pub mod M1
pub mod M2
use riscv_vibecoded.Py.Text.{Text}
use riscv_vibecoded.Prelude.{List}

-- The constants of a script: its name in messages, the directory it stages in, CORE_SV and bmc_checks.
pub record Config : Type 0 where
  pub tag : Text
  pub root_name : Text
  pub core_sv : List Text
  pub bmc_checks : List Text
