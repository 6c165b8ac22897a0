-- ===== src/Words/Stack.antt =====
-- The RV32C store relative to the stack pointer.
use riscv_vibecoded.Words.Chain.{piece, or_chain, mask32-or_chain}
use riscv_vibecoded.Words.Scattered.{bit_of}
use riscv_vibecoded.Encoder.{mask32}
use riscv_vibecoded.Encoder.Compressed.{c_swsp}
use riscv_vibecoded.Py.Int.{ℤ, pos, ◌|ℤ◌, ◌<<ℤ◌}
use riscv_vibecoded.Py.Int.Mask.{low32, field_shifted}
use riscv_vibecoded.Prelude.{ℕ, ◌+◌, ◌*◌, ◌^◌, ◌<◌, [], ◌∷◌, ◌≡◌, arith}

-- c.swsp: the offset's bits 7, 6, 5, 4, 3 and 2.
abbrev pub swsp_word : (rs2 i7 i6 i5 i4 i3 i2 : ℕ) → ℕ
swsp_word rs2 i7 i6 i5 i4 i3 i2 =
    6 * 2 ^ 13
    + rs2 * 2 ^ 2
    + i7 * 2 ^ 8
    + i6 * 2 ^ 7
    + i5 * 2 ^ 12
    + i4 * 2 ^ 11
    + i3 * 2 ^ 10
    + i2 * 2 ^ 9
    + 2

swsp_chain :
    (rs2 a b c d e f : ℕ)
    → rs2 < 32
    → a < 2
    → b < 2
    → c < 2
    → d < 2
    → e < 2
    → f < 2
    → mask32 (
        pos (
          or_chain (6 * 2 ^ 13) (
            piece 2 5 (rs2 * 2 ^ 2)
            ∷ piece 8 1 (a * 2 ^ 8)
            ∷ piece 7 1 (b * 2 ^ 7)
            ∷ piece 12 1 (c * 2 ^ 12)
            ∷ piece 11 1 (d * 2 ^ 11)
            ∷ piece 10 1 (e * 2 ^ 10)
            ∷ piece 9 1 (f * 2 ^ 9)
            ∷ piece 0 2 2
            ∷ [])))
      ≡ pos (swsp_word rs2 a b c d e f)
swsp_chain rs2 a b c d e f hr ha hb hc hd he hf =
    mask32-or_chain (6 * 2 ^ 13)
      (piece 2 5 (rs2 * 2 ^ 2)
        ∷ piece 8 1 (a * 2 ^ 8)
        ∷ piece 7 1 (b * 2 ^ 7)
        ∷ piece 12 1 (c * 2 ^ 12)
        ∷ piece 11 1 (d * 2 ^ 11)
        ∷ piece 10 1 (e * 2 ^ 10)
        ∷ piece 9 1 (f * 2 ^ 9)
        ∷ piece 0 2 2
        ∷ [])
      (omega arith) (omega arith)

abbrev pub swsp_word_of : ℕ → ℕ → ℕ
swsp_word_of rs2 u =
    swsp_word rs2 (bit_of u 7) (bit_of u 6) (bit_of u 5) (bit_of u 4) (bit_of u 3) (bit_of u 2)

pub c_swsp_word :
    (rs2 : ℕ) (imm : ℤ) → rs2 < 32 → c_swsp (pos rs2) imm ≡ pos (swsp_word_of rs2 (low32 imm))
unfolding c_swsp ◌|ℤ◌ ◌<<ℤ◌
c_swsp_word rs2 imm h =
    let u : ℕ = low32 imm in
    rw
      (
        field_shifted 7 1 8 imm (omega arith),
        field_shifted 6 1 7 imm (omega arith),
        field_shifted 5 1 12 imm (omega arith),
        field_shifted 4 1 11 imm (omega arith),
        field_shifted 3 1 10 imm (omega arith),
        field_shifted 2 1 9 imm (omega arith),
      )
      (swsp_chain rs2 (bit_of u 7) (bit_of u 6) (bit_of u 5) (bit_of u 4) (bit_of u 3) (bit_of u 2)
        h (omega arith) (omega arith) (omega arith) (omega arith) (omega arith) (omega arith))
