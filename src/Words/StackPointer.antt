-- ===== src/Words/StackPointer.antt =====
-- The RV32C adjustments of the stack pointer.
use riscv_vibecoded.Words.Chain.{piece, or_chain, mask32-or_chain}
use riscv_vibecoded.Words.Compressed.{spn_lem}
use riscv_vibecoded.Words.Scattered.{bit_of}
use riscv_vibecoded.Encoder.{mask32}
use riscv_vibecoded.Encoder.Compressed.{c_addi16sp, c_addi4spn}
use riscv_vibecoded.Py.Error.{ok}
use riscv_vibecoded.Py.Int.{ℤ, pos, ◌|ℤ◌, ◌<<ℤ◌}
use riscv_vibecoded.Py.Int.Mask.{low32, field_shifted}
use riscv_vibecoded.Prelude.{ℕ, ◌+◌, ◌-◌, ◌*◌, ◌^◌, ◌≤◌, ◌<◌, [], ◌∷◌, ◌≡◌, ap, ◌∙◌, arith}

-- c.addi16sp: the immediate's bits 9, 8, 7, 6, 5 and 4.
abbrev pub addi16sp_word : (i9 i8 i7 i6 i5 i4 : ℕ) → ℕ
addi16sp_word i9 i8 i7 i6 i5 i4 =
    3 * 2 ^ 13
    + 2 * 2 ^ 7
    + i9 * 2 ^ 12
    + i8 * 2 ^ 4
    + i7 * 2 ^ 3
    + i6 * 2 ^ 5
    + i5 * 2 ^ 2
    + i4 * 2 ^ 6
    + 1

addi16sp_chain :
    (a b c d e f : ℕ)
    → a < 2
    → b < 2
    → c < 2
    → d < 2
    → e < 2
    → f < 2
    → mask32 (
        pos (
          or_chain (3 * 2 ^ 13) (
            piece 7 5 (2 * 2 ^ 7)
            ∷ piece 12 1 (a * 2 ^ 12)
            ∷ piece 4 1 (b * 2 ^ 4)
            ∷ piece 3 1 (c * 2 ^ 3)
            ∷ piece 5 1 (d * 2 ^ 5)
            ∷ piece 2 1 (e * 2 ^ 2)
            ∷ piece 6 1 (f * 2 ^ 6)
            ∷ piece 0 2 1
            ∷ [])))
      ≡ pos (addi16sp_word a b c d e f)
addi16sp_chain a b c d e f ha hb hc hd he hf =
    mask32-or_chain (3 * 2 ^ 13)
      (piece 7 5 (2 * 2 ^ 7)
        ∷ piece 12 1 (a * 2 ^ 12)
        ∷ piece 4 1 (b * 2 ^ 4)
        ∷ piece 3 1 (c * 2 ^ 3)
        ∷ piece 5 1 (d * 2 ^ 5)
        ∷ piece 2 1 (e * 2 ^ 2)
        ∷ piece 6 1 (f * 2 ^ 6)
        ∷ piece 0 2 1
        ∷ [])
      (omega arith) (omega arith)

abbrev pub addi16sp_word_of : ℕ → ℕ
addi16sp_word_of u =
    addi16sp_word (bit_of u 9) (bit_of u 8) (bit_of u 7) (bit_of u 6) (bit_of u 5) (bit_of u 4)

pub c_addi16sp_word : (imm : ℤ) → c_addi16sp imm ≡ pos (addi16sp_word_of (low32 imm))
unfolding c_addi16sp ◌|ℤ◌ ◌<<ℤ◌
c_addi16sp_word imm =
    let u : ℕ = low32 imm in
    rw
      (
        field_shifted 9 1 12 imm (omega arith),
        field_shifted 8 1 4 imm (omega arith),
        field_shifted 7 1 3 imm (omega arith),
        field_shifted 6 1 5 imm (omega arith),
        field_shifted 5 1 2 imm (omega arith),
        field_shifted 4 1 6 imm (omega arith),
      )
      (addi16sp_chain (bit_of u 9) (bit_of u 8) (bit_of u 7) (bit_of u 6) (bit_of u 5) (bit_of u 4)
        (omega arith) (omega arith) (omega arith) (omega arith) (omega arith) (omega arith))

-- c.addi4spn: the immediate's bits 9, 8, 7, 6, 5, 4, 3 and 2.
abbrev pub addi4spn_word : (r i9 i8 i7 i6 i5 i4 i3 i2 : ℕ) → ℕ
addi4spn_word r i9 i8 i7 i6 i5 i4 i3 i2 =
    r * 2 ^ 2
    + i9 * 2 ^ 10
    + i8 * 2 ^ 9
    + i7 * 2 ^ 8
    + i6 * 2 ^ 7
    + i5 * 2 ^ 12
    + i4 * 2 ^ 11
    + i3 * 2 ^ 5
    + i2 * 2 ^ 6

addi4spn_chain :
    (r a b c d e f g h : ℕ)
    → r < 8
    → a < 2
    → b < 2
    → c < 2
    → d < 2
    → e < 2
    → f < 2
    → g < 2
    → h < 2
    → mask32 (
        pos (
          or_chain 0 (
            piece 2 3 (r * 2 ^ 2)
            ∷ piece 10 1 (a * 2 ^ 10)
            ∷ piece 9 1 (b * 2 ^ 9)
            ∷ piece 8 1 (c * 2 ^ 8)
            ∷ piece 7 1 (d * 2 ^ 7)
            ∷ piece 12 1 (e * 2 ^ 12)
            ∷ piece 11 1 (f * 2 ^ 11)
            ∷ piece 5 1 (g * 2 ^ 5)
            ∷ piece 6 1 (h * 2 ^ 6)
            ∷ piece 0 1 0
            ∷ [])))
      ≡ pos (addi4spn_word r a b c d e f g h)
addi4spn_chain r a b c d e f g h hr ha hb hc hd he hf hg hh =
    mask32-or_chain 0
      (piece 2 3 (r * 2 ^ 2)
        ∷ piece 10 1 (a * 2 ^ 10)
        ∷ piece 9 1 (b * 2 ^ 9)
        ∷ piece 8 1 (c * 2 ^ 8)
        ∷ piece 7 1 (d * 2 ^ 7)
        ∷ piece 12 1 (e * 2 ^ 12)
        ∷ piece 11 1 (f * 2 ^ 11)
        ∷ piece 5 1 (g * 2 ^ 5)
        ∷ piece 6 1 (h * 2 ^ 6)
        ∷ piece 0 1 0
        ∷ [])
      (omega arith) (omega arith)
    ∙ ap pos (omega arith)

abbrev pub addi4spn_word_of : ℕ → ℕ → ℕ
addi4spn_word_of r u =
    addi4spn_word r (bit_of u 9) (bit_of u 8) (bit_of u 7) (bit_of u 6) (bit_of u 5) (bit_of u 4)
      (bit_of u 3) (bit_of u 2)

pub c_addi4spn_word :
    (rd : ℕ) (imm : ℤ)
    → 8 ≤ rd
    → rd ≤ 15
    → c_addi4spn (pos rd) imm ≡ ok (pos (addi4spn_word_of (rd - 8) (low32 imm)))
unfolding c_addi4spn ◌|ℤ◌ ◌<<ℤ◌
c_addi4spn_word rd imm lo hi =
    let u : ℕ = low32 imm in
    rw
      (
        spn_lem rd lo hi,
        field_shifted 9 1 10 imm (omega arith),
        field_shifted 8 1 9 imm (omega arith),
        field_shifted 7 1 8 imm (omega arith),
        field_shifted 6 1 7 imm (omega arith),
        field_shifted 5 1 12 imm (omega arith),
        field_shifted 4 1 11 imm (omega arith),
        field_shifted 3 1 5 imm (omega arith),
        field_shifted 2 1 6 imm (omega arith),
      )
      (ap ok (
        addi4spn_chain (rd - 8) (bit_of u 9) (bit_of u 8) (bit_of u 7) (bit_of u 6) (bit_of u 5)
          (bit_of u 4) (bit_of u 3) (bit_of u 2) (omega arith) (omega arith) (omega arith)
          (omega arith) (omega arith) (omega arith) (omega arith) (omega arith) (omega arith)))
