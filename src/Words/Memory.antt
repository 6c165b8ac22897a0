-- ===== src/Words/Memory.antt =====
-- The RV32C loads, stores and stack pointer adjustments, over the bits of the offset.
use riscv_vibecoded.Words.Chain.{Piece, piece, or_chain, or-or_chain, mask32-or_chain}
use riscv_vibecoded.Words.Compressed.{spn_lem}
use riscv_vibecoded.Words.Scattered.{bit_of}
use riscv_vibecoded.Encoder.{mask32}
use riscv_vibecoded.Encoder.Compressed.{c_cl_imm, c_lw, c_sw, c_lwsp}
use riscv_vibecoded.Py.Error.{ok}
use riscv_vibecoded.Py.Int.{ℤ, pos, ◌|ℤ◌, ◌<<ℤ◌}
use riscv_vibecoded.Py.Int.Mask.{low32, field_shifted}
use riscv_vibecoded.Prelude.{
  ℕ, ◌+◌, ◌-◌, ◌*◌, ◌^◌, ◌≤◌, ◌<◌, bit_or, List, [], ◌∷◌, ◌≡◌, ap, ◌∙◌, arith,
}

-- c.lw and c.sw: two short registers and the offset's bits 6, 5, 4, 3 and 2.
abbrev pub cl_word : (f3 r1 i6 i5 i4 i3 i2 r2 : ℕ) → ℕ
cl_word f3 r1 i6 i5 i4 i3 i2 r2 =
    f3 * 2 ^ 13
    + r1 * 2 ^ 7
    + i6 * 2 ^ 5
    + i5 * 2 ^ 12
    + i4 * 2 ^ 11
    + i3 * 2 ^ 10
    + i2 * 2 ^ 6
    + r2 * 2 ^ 2

abbrev cl_pieces : (i5 i4 i3 i2 : ℕ) → List Piece
cl_pieces i5 i4 i3 i2 =
    piece 12 1 (i5 * 2 ^ 12)
    ∷ piece 11 1 (i4 * 2 ^ 11)
    ∷ piece 10 1 (i3 * 2 ^ 10)
    ∷ piece 6 1 (i2 * 2 ^ 6)
    ∷ []

module _ (f3 r1 r2 : ℕ) (h3 : f3 < 8) (h1 : r1 < 8) (h2 : r2 < 8) where
  cl_chain :
      (a b c d e : ℕ)
      → a < 2
      → b < 2
      → c < 2
      → d < 2
      → e < 2
      → mask32 (
          pos (
            bit_or
              (bit_or
                (bit_or
                  (bit_or (f3 * 2 ^ 13) (r1 * 2 ^ 7))
                  (or_chain (a * 2 ^ 5) (cl_pieces b c d e)))
                (r2 * 2 ^ 2))
              0))
        ≡ pos (cl_word f3 r1 a b c d e r2)
  cl_chain a b c d e ha hb hc hd he =
      ap (λ (t : ℕ). mask32 (pos (bit_or (bit_or t (r2 * 2 ^ 2)) 0)))
        (or-or_chain (bit_or (f3 * 2 ^ 13) (r1 * 2 ^ 7)) (a * 2 ^ 5) (cl_pieces b c d e))
      ∙ mask32-or_chain (f3 * 2 ^ 13)
          (piece 7 3 (r1 * 2 ^ 7)
            ∷ piece 5 1 (a * 2 ^ 5)
            ∷ piece 12 1 (b * 2 ^ 12)
            ∷ piece 11 1 (c * 2 ^ 11)
            ∷ piece 10 1 (d * 2 ^ 10)
            ∷ piece 6 1 (e * 2 ^ 6)
            ∷ piece 2 3 (r2 * 2 ^ 2)
            ∷ piece 0 1 0
            ∷ [])
          (omega arith) (omega arith)
      ∙ ap pos (omega arith)

abbrev pub cl_word_of : ℕ → ℕ → ℕ → ℕ → ℕ
cl_word_of f3 r1 u r2 =
    cl_word f3 r1 (bit_of u 6) (bit_of u 5) (bit_of u 4) (bit_of u 3) (bit_of u 2) r2

c_cl_imm_word :
    (imm : ℤ)
    → let u = low32 imm in
      c_cl_imm imm
      ≡ pos (
          or_chain
            (bit_of u 6 * 2 ^ 5)
            (cl_pieces (bit_of u 5) (bit_of u 4) (bit_of u 3) (bit_of u 2)))
unfolding c_cl_imm ◌|ℤ◌
c_cl_imm_word imm = rw (
  field_shifted 6 1 5 imm (omega arith),
  field_shifted 5 1 12 imm (omega arith),
  field_shifted 4 1 11 imm (omega arith),
  field_shifted 3 1 10 imm (omega arith),
  field_shifted 2 1 6 imm (omega arith),
)

module _ (r1 r2 : ℕ) (imm : ℤ) (lo1 : 8 ≤ r1) (hi1 : r1 ≤ 15) (lo2 : 8 ≤ r2) (hi2 : r2 ≤ 15) where
  abbrev u : ℕ
  u = low32 imm

  pub c_lw_word : c_lw (pos r1) (pos r2) imm ≡ ok (pos (cl_word_of 2 (r1 - 8) u (r2 - 8)))
  unfolding c_lw ◌|ℤ◌ ◌<<ℤ◌
  c_lw_word =
      rw (spn_lem r1 lo1 hi1, spn_lem r2 lo2 hi2, c_cl_imm_word imm)
        (ap ok (
          cl_chain 2 (r1 - 8) (r2 - 8) (omega arith) (omega arith) (omega arith) (bit_of u 6)
            (bit_of u 5) (bit_of u 4) (bit_of u 3) (bit_of u 2) (omega arith) (omega arith)
            (omega arith) (omega arith) (omega arith)))

  pub c_sw_word : c_sw (pos r1) (pos r2) imm ≡ ok (pos (cl_word_of 6 (r1 - 8) u (r2 - 8)))
  unfolding c_sw ◌|ℤ◌ ◌<<ℤ◌
  c_sw_word =
      rw (spn_lem r1 lo1 hi1, spn_lem r2 lo2 hi2, c_cl_imm_word imm)
        (ap ok (
          cl_chain 6 (r1 - 8) (r2 - 8) (omega arith) (omega arith) (omega arith) (bit_of u 6)
            (bit_of u 5) (bit_of u 4) (bit_of u 3) (bit_of u 2) (omega arith) (omega arith)
            (omega arith) (omega arith) (omega arith)))

-- c.lwsp: the offset's bits 7, 6, 5, 4, 3 and 2.
abbrev pub lwsp_word : (rd i7 i6 i5 i4 i3 i2 : ℕ) → ℕ
lwsp_word rd i7 i6 i5 i4 i3 i2 =
    2 * 2 ^ 13
    + rd * 2 ^ 7
    + i7 * 2 ^ 3
    + i6 * 2 ^ 2
    + i5 * 2 ^ 12
    + i4 * 2 ^ 6
    + i3 * 2 ^ 5
    + i2 * 2 ^ 4
    + 2

lwsp_chain :
    (rd a b c d e f : ℕ)
    → rd < 32
    → a < 2
    → b < 2
    → c < 2
    → d < 2
    → e < 2
    → f < 2
    → mask32 (
        pos (
          or_chain (2 * 2 ^ 13) (
            piece 7 5 (rd * 2 ^ 7)
            ∷ piece 3 1 (a * 2 ^ 3)
            ∷ piece 2 1 (b * 2 ^ 2)
            ∷ piece 12 1 (c * 2 ^ 12)
            ∷ piece 6 1 (d * 2 ^ 6)
            ∷ piece 5 1 (e * 2 ^ 5)
            ∷ piece 4 1 (f * 2 ^ 4)
            ∷ piece 0 2 2
            ∷ [])))
      ≡ pos (lwsp_word rd a b c d e f)
lwsp_chain rd a b c d e f hr ha hb hc hd he hf =
    mask32-or_chain (2 * 2 ^ 13)
      (piece 7 5 (rd * 2 ^ 7)
        ∷ piece 3 1 (a * 2 ^ 3)
        ∷ piece 2 1 (b * 2 ^ 2)
        ∷ piece 12 1 (c * 2 ^ 12)
        ∷ piece 6 1 (d * 2 ^ 6)
        ∷ piece 5 1 (e * 2 ^ 5)
        ∷ piece 4 1 (f * 2 ^ 4)
        ∷ piece 0 2 2
        ∷ [])
      (omega arith) (omega arith)

abbrev pub lwsp_word_of : ℕ → ℕ → ℕ
lwsp_word_of rd u =
    lwsp_word rd (bit_of u 7) (bit_of u 6) (bit_of u 5) (bit_of u 4) (bit_of u 3) (bit_of u 2)

pub c_lwsp_word :
    (rd : ℕ) (imm : ℤ) → rd < 32 → c_lwsp (pos rd) imm ≡ pos (lwsp_word_of rd (low32 imm))
unfolding c_lwsp ◌|ℤ◌ ◌<<ℤ◌
c_lwsp_word rd imm h =
    let u : ℕ = low32 imm in
    rw
      (
        field_shifted 7 1 3 imm (omega arith),
        field_shifted 6 1 2 imm (omega arith),
        field_shifted 5 1 12 imm (omega arith),
        field_shifted 4 1 6 imm (omega arith),
        field_shifted 3 1 5 imm (omega arith),
        field_shifted 2 1 4 imm (omega arith),
      )
      (lwsp_chain rd (bit_of u 7) (bit_of u 6) (bit_of u 5) (bit_of u 4) (bit_of u 3) (bit_of u 2) h
        (omega arith) (omega arith) (omega arith) (omega arith) (omega arith) (omega arith))
