-- ===== src/RoundTrip/Outcome.antt =====
-- Encoders that may raise an exception.
use riscv_vibecoded.Isa.Insn.{Insn, Encodes}
use riscv_vibecoded.Py.Error.{Result, ok}
use riscv_vibecoded.Py.Int.{ℤ}
use riscv_vibecoded.Prelude.{ℕ, ◌≡◌}

-- The call returns a value, and that encodes i in n bytes.
abbrev pub Succeeds : Result ℤ → ℕ → Insn → Type 0
Succeeds m n i = (v : ℤ) × (m ≡ ok v) × Encodes v n i
