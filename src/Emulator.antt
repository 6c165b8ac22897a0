-- ===== src/Emulator.antt =====
-- tools/gen_expected.py: a program of directed-test entries, its emulation, and the table of
-- expected retirements.
pub mod Alu
pub mod Step
pub mod Run
pub mod Table
pub mod Shift
pub mod Stops
pub mod Preload
pub mod Program
pub mod Print
pub mod Simulation
pub mod Bounds
use Prim.Native.String.{String}
use riscv_vibecoded.Py.Int.{ℤ}
use riscv_vibecoded.Prelude.{List}

-- The `kind` strings that the loop of `emulate` knows, and any other.
pub data Kind : Type 0 where
  lui addi cli cadd csub cslli csrli csrai candi cmv cbeqz cbnez cswsp clwsp clw csw caddi cxor cor
        cand cjal cjr :
      Kind
  other : String → Kind

-- (addr, word, kind, args)
pub record Entry : Type 0 where
  pub addr : ℤ
  pub word : ℤ
  pub kind : Kind
  pub args : List ℤ

-- One row of the table, in the order of the source's tuple.
pub record Retire : Type 0 where
  pub w : ℤ
  pub pc : ℤ
  pub pcw : ℤ
  pub r1a : ℤ
  pub r1d : ℤ
  pub r2a : ℤ
  pub r2d : ℤ
  pub rda : ℤ
  pub rdw : ℤ
  pub ma : ℤ
  pub rm : ℤ
  pub wm : ℤ
  pub mrd : ℤ
  pub mwd : ℤ

-- `regs`, `mem` and `pc` between two rounds of the loop.
pub record State : Type 0 where
  pub regs : List ℤ
  pub mem : List (ℤ × ℤ)
  pub pc : ℤ
