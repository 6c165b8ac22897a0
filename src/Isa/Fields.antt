-- ===== src/Isa/Fields.antt =====
-- rtl/core/decoder.sv: the immediates, as 32-bit words. `{n{b}}` is `repeat_bit n b`, and a
-- concatenation is a sum of its parts at their places.
use riscv_vibecoded.Prelude.{ℕ, ◌+◌, ◌-◌, ◌*◌, ◌/◌, ◌%◌, ◌^◌}

-- insn_i[hi:lo] and insn_i[i]
abbrev pub slice : ℕ → ℕ → ℕ → ℕ
slice hi lo w = w / 2 ^ lo % 2 ^ (hi + 1 - lo)

abbrev pub bit : ℕ → ℕ → ℕ
bit i w = w / 2 ^ i % 2

abbrev pub repeat_bit : ℕ → ℕ → ℕ
repeat_bit n b = b * (2 ^ n - 1)

unfoldable pub imm_i : ℕ → ℕ
imm_i w = repeat_bit 20 (bit 31 w) * 2 ^ 12 + slice 31 20 w

unfoldable pub imm_s : ℕ → ℕ
imm_s w = repeat_bit 20 (bit 31 w) * 2 ^ 12 + slice 31 25 w * 2 ^ 5 + slice 11 7 w

unfoldable pub imm_b : ℕ → ℕ
imm_b w =
    repeat_bit 19 (bit 31 w) * 2 ^ 13
    + bit 31 w * 2 ^ 12
    + bit 7 w * 2 ^ 11
    + slice 30 25 w * 2 ^ 5
    + slice 11 8 w * 2 ^ 1

unfoldable pub imm_j : ℕ → ℕ
imm_j w =
    repeat_bit 11 (bit 31 w) * 2 ^ 21
    + bit 31 w * 2 ^ 20
    + slice 19 12 w * 2 ^ 12
    + bit 20 w * 2 ^ 11
    + slice 30 21 w * 2 ^ 1

unfoldable pub imm_u : ℕ → ℕ
imm_u w = slice 31 12 w * 2 ^ 12

unfoldable pub imm_shift : ℕ → ℕ
imm_shift w = slice 24 20 w

unfoldable pub c_imm_sext6 : ℕ → ℕ
c_imm_sext6 w = repeat_bit 26 (bit 12 w) * 2 ^ 6 + bit 12 w * 2 ^ 5 + slice 6 2 w

unfoldable pub c_imm_lui : ℕ → ℕ
c_imm_lui w = repeat_bit 14 (bit 12 w) * 2 ^ 18 + bit 12 w * 2 ^ 17 + slice 6 2 w * 2 ^ 12

unfoldable pub c_imm_16sp : ℕ → ℕ
c_imm_16sp w =
    repeat_bit 22 (bit 12 w) * 2 ^ 10
    + bit 12 w * 2 ^ 9
    + slice 4 3 w * 2 ^ 7
    + bit 5 w * 2 ^ 6
    + bit 2 w * 2 ^ 5
    + bit 6 w * 2 ^ 4

unfoldable pub c_imm_4spn : ℕ → ℕ
c_imm_4spn w = slice 10 7 w * 2 ^ 6 + slice 12 11 w * 2 ^ 4 + bit 5 w * 2 ^ 3 + bit 6 w * 2 ^ 2

unfoldable pub c_imm_cl : ℕ → ℕ
c_imm_cl w = bit 5 w * 2 ^ 6 + slice 12 10 w * 2 ^ 3 + bit 6 w * 2 ^ 2

unfoldable pub c_imm_lwsp : ℕ → ℕ
c_imm_lwsp w = slice 3 2 w * 2 ^ 6 + bit 12 w * 2 ^ 5 + slice 6 4 w * 2 ^ 2

unfoldable pub c_imm_swsp : ℕ → ℕ
c_imm_swsp w = slice 8 7 w * 2 ^ 6 + slice 12 9 w * 2 ^ 2

unfoldable pub c_imm_cb : ℕ → ℕ
c_imm_cb w =
    repeat_bit 23 (bit 12 w) * 2 ^ 9
    + bit 12 w * 2 ^ 8
    + slice 6 5 w * 2 ^ 6
    + bit 2 w * 2 ^ 5
    + slice 11 10 w * 2 ^ 3
    + slice 4 3 w * 2 ^ 1

unfoldable pub c_imm_cj : ℕ → ℕ
c_imm_cj w =
    repeat_bit 20 (bit 12 w) * 2 ^ 12
    + bit 12 w * 2 ^ 11
    + bit 8 w * 2 ^ 10
    + bit 10 w * 2 ^ 9
    + bit 9 w * 2 ^ 8
    + bit 6 w * 2 ^ 7
    + bit 7 w * 2 ^ 6
    + bit 2 w * 2 ^ 5
    + bit 11 w * 2 ^ 4
    + bit 5 w * 2 ^ 3
    + bit 4 w * 2 ^ 2
    + bit 3 w * 2 ^ 1

unfoldable pub c_shamt : ℕ → ℕ
c_shamt w = bit 12 w * 2 ^ 5 + slice 6 2 w
