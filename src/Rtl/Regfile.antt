-- ===== src/Rtl/Regfile.antt =====
-- rtl/core/regfile.sv: 32 words, two read ports that follow the address and one write port.
use riscv_vibecoded.Prelude.{ℕ, Bool, not, ◌==◌, ◌&&◌, if◌then◌else◌}

-- The inputs of the write port.
pub record WritePort : Type 0 where
  pub waddr : ℕ
  pub wdata : ℕ
  pub we : Bool

-- `mem` after a reset.
abbrev pub reset : ℕ → ℕ
reset i = 0

unfoldable pub clock : WritePort → (ℕ → ℕ) → ℕ → ℕ
clock p mem i = if p.we && not (p.waddr == 0) && i == p.waddr then p.wdata else mem i

-- Either read port.
unfoldable pub read : (ℕ → ℕ) → ℕ → ℕ
read mem raddr = if raddr == 0 then 0 else mem raddr
