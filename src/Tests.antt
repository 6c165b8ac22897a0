-- ===== src/Tests.antt =====
-- Examples: the theorems at concrete arguments.
mod Rv32i
mod Rv32c
mod Emulation
mod Beside
mod Simulation
mod Directed
mod Vcd
mod Formal
mod Print
mod Bounds
mod Machine
mod Rtl
mod Traps
