-- ===== src/Emulator/Print/Words.antt =====
-- tools/gen_expected.py: the words of the table.
use riscv_vibecoded.Emulator.Print.{word}
use riscv_vibecoded.Py.Int.{pos}
use riscv_vibecoded.Py.Text.{Text, text}
use riscv_vibecoded.Py.Text.Number.{hex_field}
use riscv_vibecoded.Py.Text.Number.RoundTrip.{value_onto}
use riscv_vibecoded.Py.Text.Number.Field.{hex_field_lem}
use riscv_vibecoded.Prelude.{ℕ, ◌<◌, ◌^◌, ◌++◌, length, ◌≡◌, refl, arith}

-- A number below 2^32 is printed as 32'h with 8 digits, which read in base 16 give the number.
pub word_lem :
    (n : ℕ)
    → n < 2 ^ 32
    → (digits : Text) × (word (pos n) ≡ text "32'h" ++ digits)
      × (length digits ≡ 8)
      × (value_onto 16 0 digits ≡ n)
word_lem n h =
    let field = hex_field_lem 7 n (omega arith) in (hex_field 8 (pos n), refl, field.0, field.1)
