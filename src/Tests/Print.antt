-- ===== src/Tests/Print.antt =====
-- Examples of what tools/gen_expected.py and tools/riscv_enc.py print.
use riscv_vibecoded.Emulator.{Retire}
use riscv_vibecoded.Emulator.Print.{row_lines, preload_line}
use riscv_vibecoded.Encoder.{mask32}
use riscv_vibecoded.Encoder.Base.{rtype, itype, lui, auipc, jal, jalr, branch, load, store}
use riscv_vibecoded.Encoder.SelfCheck.{self_check, assert_each}
use riscv_vibecoded.Py.Int.{pos, ◌&ℤ◌, ◌|ℤ◌, ◌<<ℤ◌, ◌>>ℤ◌}
use riscv_vibecoded.Py.Output.{prints, exit}
use riscv_vibecoded.Py.Text.{text, join}
use riscv_vibecoded.Py.Text.Number.{str_of, hex_field, numeral, numeral_fuel, digit}
use riscv_vibecoded.Prelude.{[], ◌∷◌, ◌≡◌, refl}

abbrev row : Retire
row = record {
  w = pos 0x4502;
  pc = pos 10;
  pcw = pos 12;
  r1a = pos 2;
  r1d = pos 256;
  r2a = pos 0;
  r2d = pos 0;
  rda = pos 10;
  rdw = pos 0xFFFFFFFF;
  ma = pos 256;
  rm = pos 15;
  wm = pos 0;
  mrd = pos 0xFFFFFFFF;
  mwd = pos 0;
}

row_printed :
    row_lines (pos 19) row
    ≡ text
        "    set_exp(19, 32'h00004502, 32'h0000000a, 32'h0000000c, 5'd2, 32'h00000100, 5'd0, 32'h00000000,"
      ∷ text
          "             5'd10, 32'hffffffff, 32'h00000100, 4'hf, 4'h0, 32'hffffffff, 32'h00000000);"
      ∷ []
unfolding row_lines str_of hex_field numeral numeral_fuel digit join
row_printed = refl

preload_printed :
    preload_line (pos 21) (pos 0x37) ≡ text "    mem[0x0054 >> 2] = 32'h00000037;  // word @0x0054"
unfolding preload_line hex_field numeral numeral_fuel digit ◌<<ℤ◌
preload_printed = refl

-- All assertions of the self-check hold.
self_check_passes : self_check ≡ prints (text "riscv_enc self-check: PASS") (exit 0)
unfolding self_check assert_each rtype itype lui auipc jal jalr branch load store mask32 ◌&ℤ◌ ◌|ℤ◌
    ◌<<ℤ◌ ◌>>ℤ◌
self_check_passes = refl
