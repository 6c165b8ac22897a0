-- ===== src/Rtl/Core.antt =====
-- rtl/core/rv32i_core.sv: the registers of the core, the wires between its modules, one clock edge,
-- and the outputs.
pub mod State
pub mod Wires
pub mod Trap
pub mod Clock
pub mod Outputs
pub mod Schedule
pub mod Stages
pub mod Retire
pub mod Safety
pub mod Widths
pub mod Effect
