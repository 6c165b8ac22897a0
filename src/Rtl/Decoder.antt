-- ===== src/Rtl/Decoder.antt =====
-- rtl/core/decoder.sv: the control bundle of an instruction word. The outputs have their defaults,
-- which the case of the instruction overrides; the immediates are those of Isa.Fields.
pub mod Outputs
pub mod Compressed
pub mod Base
pub mod Classes
pub mod Action
pub mod Base32
pub mod Base16
pub mod Size
pub mod Immediates
use Outputs.{Bundle}
use Compressed.{decode_c}
use Base.{decode_base}
use riscv_vibecoded.Isa.Fields.{slice}
use riscv_vibecoded.Prelude.{ℕ, ◌==◌, if◌then◌else◌}

unfoldable pub decoder : ℕ → Bundle
decoder insn = if slice 1 0 insn == 0b11 then decode_base insn else decode_c insn
