-- ===== src/Words/Branch.antt =====
-- The RV32C conditional branches, over the bits that the immediate falls into.
use riscv_vibecoded.Words.Chain.{Piece, piece, or_chain, or-or_chain, mask32-or_chain}
use riscv_vibecoded.Words.Compressed.{spn_lem}
use riscv_vibecoded.Encoder.{mask32}
use riscv_vibecoded.Encoder.Compressed.{c_cb_imm, c_beqz, c_bnez}
use riscv_vibecoded.Py.Error.{ok}
use riscv_vibecoded.Py.Int.{ℤ, pos, ◌|ℤ◌, ◌<<ℤ◌}
use riscv_vibecoded.Py.Int.Mask.{low32, field_shifted}
use riscv_vibecoded.Prelude.{
  ℕ, ◌+◌, ◌-◌, ◌*◌, ◌/◌, ◌%◌, ◌^◌, ◌≤◌, ◌<◌, bit_or, List, [], ◌∷◌, ◌≡◌, ap, ◌∙◌, arith,
}
use riscv_vibecoded.Words.Scattered.{bit_of}

-- The conditional branches: the offset's bits 8, 7:6, 5, 4:3 and 2:1.
abbrev pub cbr_word : (f3 r i8 i7_6 i5 i4_3 i2_1 : ℕ) → ℕ
cbr_word f3 r i8 i7_6 i5 i4_3 i2_1 =
    f3 * 2 ^ 13
    + r * 2 ^ 7
    + i8 * 2 ^ 12
    + i7_6 * 2 ^ 5
    + i5 * 2 ^ 2
    + i4_3 * 2 ^ 10
    + i2_1 * 2 ^ 3
    + 1

abbrev cbr_pieces : (i7_6 i5 i4_3 i2_1 : ℕ) → List Piece
cbr_pieces i7_6 i5 i4_3 i2_1 =
    piece 5 2 (i7_6 * 2 ^ 5)
    ∷ piece 2 1 (i5 * 2 ^ 2)
    ∷ piece 10 2 (i4_3 * 2 ^ 10)
    ∷ piece 3 2 (i2_1 * 2 ^ 3)
    ∷ []

cbr_chain :
    (f3 r a b c d e : ℕ)
    → f3 < 8
    → r < 8
    → a < 2
    → b < 4
    → c < 2
    → d < 4
    → e < 4
    → mask32 (
        pos (
          bit_or
            (bit_or (bit_or (f3 * 2 ^ 13) (r * 2 ^ 7)) (or_chain (a * 2 ^ 12) (cbr_pieces b c d e)))
            1))
      ≡ pos (cbr_word f3 r a b c d e)
cbr_chain f3 r a b c d e h3 hr ha hb hc hd he =
    ap (λ (t : ℕ). mask32 (pos (bit_or t 1)))
      (or-or_chain (bit_or (f3 * 2 ^ 13) (r * 2 ^ 7)) (a * 2 ^ 12) (cbr_pieces b c d e))
    ∙ mask32-or_chain (f3 * 2 ^ 13)
        (piece 7 3 (r * 2 ^ 7)
          ∷ piece 12 1 (a * 2 ^ 12)
          ∷ piece 5 2 (b * 2 ^ 5)
          ∷ piece 2 1 (c * 2 ^ 2)
          ∷ piece 10 2 (d * 2 ^ 10)
          ∷ piece 3 2 (e * 2 ^ 3)
          ∷ piece 0 1 1
          ∷ [])
        (omega arith) (omega arith)

c_cb_imm_word :
    (imm : ℤ)
    → let u = low32 imm in
      c_cb_imm imm
      ≡ pos (
          or_chain
            (bit_of u 8 * 2 ^ 12)
            (cbr_pieces (u / 2 ^ 6 % 4) (bit_of u 5) (u / 2 ^ 3 % 4) (u / 2 ^ 1 % 4)))
unfolding c_cb_imm ◌|ℤ◌
c_cb_imm_word imm = rw (
  field_shifted 8 1 12 imm (omega arith),
  field_shifted 6 2 5 imm (omega arith),
  field_shifted 5 1 2 imm (omega arith),
  field_shifted 3 2 10 imm (omega arith),
  field_shifted 1 2 3 imm (omega arith),
)

abbrev pub cbr_word_of : ℕ → ℕ → ℕ → ℕ
cbr_word_of f3 r u =
    cbr_word f3 r (bit_of u 8) (u / 2 ^ 6 % 4) (bit_of u 5) (u / 2 ^ 3 % 4) (u / 2 ^ 1 % 4)

cbr_chain_of :
    (f3 r u : ℕ)
    → f3 < 8
    → r < 8
    → mask32 (
        pos (
          bit_or
            (bit_or (bit_or (f3 * 2 ^ 13) (r * 2 ^ 7)) (
              or_chain
                (bit_of u 8 * 2 ^ 12)
                (cbr_pieces (u / 2 ^ 6 % 4) (bit_of u 5) (u / 2 ^ 3 % 4) (u / 2 ^ 1 % 4))))
            1))
      ≡ pos (cbr_word_of f3 r u)
cbr_chain_of f3 r u h hr =
    cbr_chain f3 r (bit_of u 8) (u / 2 ^ 6 % 4) (bit_of u 5) (u / 2 ^ 3 % 4) (u / 2 ^ 1 % 4) h hr
      (omega arith) (omega arith) (omega arith) (omega arith) (omega arith)

module _ (r : ℕ) (imm : ℤ) (lo : 8 ≤ r) (hi : r ≤ 15) where
  pub c_beqz_word : c_beqz (pos r) imm ≡ ok (pos (cbr_word_of 6 (r - 8) (low32 imm)))
  unfolding c_beqz ◌|ℤ◌ ◌<<ℤ◌
  c_beqz_word =
      rw (spn_lem r lo hi, c_cb_imm_word imm)
        (ap ok (cbr_chain_of 6 (r - 8) (low32 imm) (omega arith) (omega arith)))

  pub c_bnez_word : c_bnez (pos r) imm ≡ ok (pos (cbr_word_of 7 (r - 8) (low32 imm)))
  unfolding c_bnez ◌|ℤ◌ ◌<<ℤ◌
  c_bnez_word =
      rw (spn_lem r lo hi, c_cb_imm_word imm)
        (ap ok (cbr_chain_of 7 (r - 8) (low32 imm) (omega arith) (omega arith)))
