-- ===== src/Words/Scattered.antt =====
-- The RV32C jumps, over the bits that the immediate falls into.
use riscv_vibecoded.Words.Chain.{Piece, piece, or_chain, or-or_chain, mask32-or_chain}
use riscv_vibecoded.Encoder.{mask32}
use riscv_vibecoded.Encoder.Compressed.{c_cj_imm, c_j, c_jal}
use riscv_vibecoded.Py.Int.{ℤ, pos, ◌|ℤ◌, ◌<<ℤ◌}
use riscv_vibecoded.Py.Int.Mask.{low32, field_shifted}
use riscv_vibecoded.Prelude.{
  ℕ, ◌+◌, ◌*◌, ◌/◌, ◌%◌, ◌^◌, ◌<◌, bit_or, List, [], ◌∷◌, ◌≡◌, ap, ◌∙◌, arith,
}

-- Bit k of a number.
abbrev pub bit_of : ℕ → ℕ → ℕ
bit_of u k = u / 2 ^ k % 2

-- The jump offset's bits 11, 10, …, 1, as the encoder puts them into the word.
abbrev cj_pieces : (i10 i9 i8 i7 i6 i5 i4 i3 i2 i1 : ℕ) → List Piece
cj_pieces i10 i9 i8 i7 i6 i5 i4 i3 i2 i1 =
    piece 8 1 (i10 * 2 ^ 8)
    ∷ piece 10 1 (i9 * 2 ^ 10)
    ∷ piece 9 1 (i8 * 2 ^ 9)
    ∷ piece 6 1 (i7 * 2 ^ 6)
    ∷ piece 7 1 (i6 * 2 ^ 7)
    ∷ piece 2 1 (i5 * 2 ^ 2)
    ∷ piece 11 1 (i4 * 2 ^ 11)
    ∷ piece 5 1 (i3 * 2 ^ 5)
    ∷ piece 4 1 (i2 * 2 ^ 4)
    ∷ piece 3 1 (i1 * 2 ^ 3)
    ∷ []

abbrev pub cj_word : (f3 i11 i10 i9 i8 i7 i6 i5 i4 i3 i2 i1 : ℕ) → ℕ
cj_word f3 i11 i10 i9 i8 i7 i6 i5 i4 i3 i2 i1 =
    f3 * 2 ^ 13
    + i11 * 2 ^ 12
    + i10 * 2 ^ 8
    + i9 * 2 ^ 10
    + i8 * 2 ^ 9
    + i7 * 2 ^ 6
    + i6 * 2 ^ 7
    + i5 * 2 ^ 2
    + i4 * 2 ^ 11
    + i3 * 2 ^ 5
    + i2 * 2 ^ 4
    + i1 * 2 ^ 3
    + 1

cj_chain :
    (f3 i11 i10 i9 i8 i7 i6 i5 i4 i3 i2 i1 : ℕ)
    → f3 < 8
    → i11 < 2
    → i10 < 2
    → i9 < 2
    → i8 < 2
    → i7 < 2
    → i6 < 2
    → i5 < 2
    → i4 < 2
    → i3 < 2
    → i2 < 2
    → i1 < 2
    → mask32 (
        pos (
          bit_or
            (bit_or
              (f3 * 2 ^ 13)
              (or_chain (i11 * 2 ^ 12) (cj_pieces i10 i9 i8 i7 i6 i5 i4 i3 i2 i1)))
            1))
      ≡ pos (cj_word f3 i11 i10 i9 i8 i7 i6 i5 i4 i3 i2 i1)
cj_chain f3 i11 i10 i9 i8 i7 i6 i5 i4 i3 i2 i1 h3 h11 h10 h9 h8 h7 h6 h5 h4 h3' h2 h1 =
    ap (λ (t : ℕ). mask32 (pos (bit_or t 1)))
      (or-or_chain (f3 * 2 ^ 13) (i11 * 2 ^ 12) (cj_pieces i10 i9 i8 i7 i6 i5 i4 i3 i2 i1))
    ∙ mask32-or_chain (f3 * 2 ^ 13)
        (piece 12 1 (i11 * 2 ^ 12)
          ∷ piece 8 1 (i10 * 2 ^ 8)
          ∷ piece 10 1 (i9 * 2 ^ 10)
          ∷ piece 9 1 (i8 * 2 ^ 9)
          ∷ piece 6 1 (i7 * 2 ^ 6)
          ∷ piece 7 1 (i6 * 2 ^ 7)
          ∷ piece 2 1 (i5 * 2 ^ 2)
          ∷ piece 11 1 (i4 * 2 ^ 11)
          ∷ piece 5 1 (i3 * 2 ^ 5)
          ∷ piece 4 1 (i2 * 2 ^ 4)
          ∷ piece 3 1 (i1 * 2 ^ 3)
          ∷ piece 0 1 1
          ∷ [])
        (omega arith) (omega arith)

c_cj_imm_word :
    (imm : ℤ)
    → let u = low32 imm in
      c_cj_imm imm
      ≡ pos (
          or_chain (bit_of u 11 * 2 ^ 12) (
            cj_pieces
              (bit_of u 10)
              (bit_of u 9)
              (bit_of u 8)
              (bit_of u 7)
              (bit_of u 6)
              (bit_of u 5)
              (bit_of u 4)
              (bit_of u 3)
              (bit_of u 2)
              (bit_of u 1)))
unfolding c_cj_imm ◌|ℤ◌
c_cj_imm_word imm = rw (
  field_shifted 11 1 12 imm (omega arith),
  field_shifted 10 1 8 imm (omega arith),
  field_shifted 9 1 10 imm (omega arith),
  field_shifted 8 1 9 imm (omega arith),
  field_shifted 7 1 6 imm (omega arith),
  field_shifted 6 1 7 imm (omega arith),
  field_shifted 5 1 2 imm (omega arith),
  field_shifted 4 1 11 imm (omega arith),
  field_shifted 3 1 5 imm (omega arith),
  field_shifted 2 1 4 imm (omega arith),
  field_shifted 1 1 3 imm (omega arith),
)

-- The jump word of an offset's low 32 bits.
abbrev pub cj_word_of : ℕ → ℕ → ℕ
cj_word_of f3 u =
    cj_word f3 (bit_of u 11) (bit_of u 10) (bit_of u 9) (bit_of u 8) (bit_of u 7) (bit_of u 6)
      (bit_of u 5) (bit_of u 4) (bit_of u 3) (bit_of u 2) (bit_of u 1)

cj_chain_of :
    (f3 u : ℕ)
    → f3 < 8
    → mask32 (
        pos (
          bit_or
            (bit_or (f3 * 2 ^ 13) (
              or_chain (bit_of u 11 * 2 ^ 12) (
                cj_pieces
                  (bit_of u 10)
                  (bit_of u 9)
                  (bit_of u 8)
                  (bit_of u 7)
                  (bit_of u 6)
                  (bit_of u 5)
                  (bit_of u 4)
                  (bit_of u 3)
                  (bit_of u 2)
                  (bit_of u 1))))
            1))
      ≡ pos (cj_word_of f3 u)
cj_chain_of f3 u h =
    let low = λ (k : ℕ). bit_of-lt u k in
    cj_chain f3 (bit_of u 11) (bit_of u 10) (bit_of u 9) (bit_of u 8) (bit_of u 7) (bit_of u 6)
      (bit_of u 5) (bit_of u 4) (bit_of u 3) (bit_of u 2) (bit_of u 1) h (low 11) (low 10) (low 9)
      (low 8) (low 7) (low 6) (low 5) (low 4) (low 3) (low 2) (low 1)
  where
    bit_of-lt : (u k : ℕ) → bit_of u k < 2
    bit_of-lt u k = omega arith

module _ (imm : ℤ) where
  pub c_j_word : c_j imm ≡ pos (cj_word_of 5 (low32 imm))
  unfolding c_j ◌|ℤ◌ ◌<<ℤ◌
  c_j_word = rw (c_cj_imm_word imm) (cj_chain_of 5 (low32 imm) (omega arith))

  pub c_jal_word : c_jal imm ≡ pos (cj_word_of 1 (low32 imm))
  unfolding c_jal ◌|ℤ◌ ◌<<ℤ◌
  c_jal_word = rw (c_cj_imm_word imm) (cj_chain_of 1 (low32 imm) (omega arith))
