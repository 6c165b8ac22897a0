-- ===== src/Words/Jump.antt =====
-- The RV32I words whose immediate is scattered over the word: jumps, branches and stores.
use riscv_vibecoded.Words.Chain.{piece, mask32-or_chain}
use riscv_vibecoded.Encoder.{mask32}
use riscv_vibecoded.Encoder.Base.{jal, branch, store}
use riscv_vibecoded.Py.Int.{ℤ, pos, ◌|ℤ◌, ◌<<ℤ◌}
use riscv_vibecoded.Py.Int.Mask.{low32, field_shifted, low_shifted}
use riscv_vibecoded.Prelude.{ℕ, ◌+◌, ◌*◌, ◌/◌, ◌%◌, ◌^◌, ◌<◌, [], ◌∷◌, ◌≡◌, arith}

-- The immediate's bits 20, 10:1, 11 and 19:12.
abbrev pub j_word : ℕ → ℕ → ℕ → ℕ → ℕ → ℕ
j_word i20 i10_1 i11 i19_12 rd =
    i20 * 2 ^ 31 + i10_1 * 2 ^ 21 + i11 * 2 ^ 20 + i19_12 * 2 ^ 12 + rd * 2 ^ 7 + 0x6F

-- The immediate's bits 12, 11, 10:5 and 4:1.
abbrev pub b_word : ℕ → ℕ → ℕ → ℕ → ℕ → ℕ → ℕ → ℕ
b_word i12 i11 i10_5 i4_1 rs2 rs1 f3 =
    i12 * 2 ^ 31
    + i11 * 2 ^ 7
    + i10_5 * 2 ^ 25
    + i4_1 * 2 ^ 8
    + rs2 * 2 ^ 20
    + rs1 * 2 ^ 15
    + f3 * 2 ^ 12
    + 0x63

-- The immediate's bits 11:5 and 4:0.
abbrev pub s_word : ℕ → ℕ → ℕ → ℕ → ℕ → ℕ
s_word i11_5 i4_0 rs2 rs1 f3 =
    i11_5 * 2 ^ 25 + i4_0 * 2 ^ 7 + rs2 * 2 ^ 20 + rs1 * 2 ^ 15 + f3 * 2 ^ 12 + 0x23

j_chain :
    (a b c d rd : ℕ)
    → a < 2
    → b < 2 ^ 10
    → c < 2
    → d < 2 ^ 8
    → rd < 32
    → mask32 (
        pos (a * 2 ^ 31)
        |ℤ pos (b * 2 ^ 21)
        |ℤ pos (c * 2 ^ 20)
        |ℤ pos (d * 2 ^ 12)
        |ℤ pos (rd * 2 ^ 7)
        |ℤ pos 0x6F)
      ≡ pos (j_word a b c d rd)
unfolding ◌|ℤ◌
j_chain a b c d rd ha hb hc hd hr =
    mask32-or_chain (a * 2 ^ 31)
      (piece 21 10 (b * 2 ^ 21)
        ∷ piece 20 1 (c * 2 ^ 20)
        ∷ piece 12 8 (d * 2 ^ 12)
        ∷ piece 7 5 (rd * 2 ^ 7)
        ∷ piece 0 7 0x6F
        ∷ [])
      (omega arith) (omega arith)

b_chain :
    (a b c d rs2 rs1 f3 : ℕ)
    → a < 2
    → b < 2
    → c < 2 ^ 6
    → d < 2 ^ 4
    → rs2 < 32
    → rs1 < 32
    → f3 < 8
    → mask32 (
        pos (a * 2 ^ 31)
        |ℤ pos (b * 2 ^ 7)
        |ℤ pos (c * 2 ^ 25)
        |ℤ pos (d * 2 ^ 8)
        |ℤ pos (rs2 * 2 ^ 20)
        |ℤ pos (rs1 * 2 ^ 15)
        |ℤ pos (f3 * 2 ^ 12)
        |ℤ pos 0x63)
      ≡ pos (b_word a b c d rs2 rs1 f3)
unfolding ◌|ℤ◌
b_chain a b c d rs2 rs1 f3 ha hb hc hd h2 h1 h3 =
    mask32-or_chain (a * 2 ^ 31)
      (piece 7 1 (b * 2 ^ 7)
        ∷ piece 25 6 (c * 2 ^ 25)
        ∷ piece 8 4 (d * 2 ^ 8)
        ∷ piece 20 5 (rs2 * 2 ^ 20)
        ∷ piece 15 5 (rs1 * 2 ^ 15)
        ∷ piece 12 3 (f3 * 2 ^ 12)
        ∷ piece 0 7 0x63
        ∷ [])
      (omega arith) (omega arith)

s_chain :
    (a b rs2 rs1 f3 : ℕ)
    → a < 2 ^ 7
    → b < 2 ^ 5
    → rs2 < 32
    → rs1 < 32
    → f3 < 8
    → mask32 (
        pos (a * 2 ^ 25)
        |ℤ pos (b * 2 ^ 7)
        |ℤ pos (rs2 * 2 ^ 20)
        |ℤ pos (rs1 * 2 ^ 15)
        |ℤ pos (f3 * 2 ^ 12)
        |ℤ pos 0x23)
      ≡ pos (s_word a b rs2 rs1 f3)
unfolding ◌|ℤ◌
s_chain a b rs2 rs1 f3 ha hb h2 h1 h3 =
    mask32-or_chain (a * 2 ^ 25)
      (piece 7 5 (b * 2 ^ 7)
        ∷ piece 20 5 (rs2 * 2 ^ 20)
        ∷ piece 15 5 (rs1 * 2 ^ 15)
        ∷ piece 12 3 (f3 * 2 ^ 12)
        ∷ piece 0 7 0x23
        ∷ [])
      (omega arith) (omega arith)

module _ (imm : ℤ) where
  abbrev u : ℕ
  u = low32 imm

  pub jal_word :
      (rd : ℕ)
      → rd < 32
      → jal imm (pos rd)
        ≡ pos (j_word (u / 2 ^ 20 % 2) (u / 2 % 2 ^ 10) (u / 2 ^ 11 % 2) (u / 2 ^ 12 % 2 ^ 8) rd)
  unfolding jal ◌<<ℤ◌
  jal_word rd hd =
      rw
        (
          field_shifted 20 1 31 imm (omega arith),
          field_shifted 1 10 21 imm (omega arith),
          field_shifted 11 1 20 imm (omega arith),
          field_shifted 12 8 12 imm (omega arith),
        )
        (j_chain (u / 2 ^ 20 % 2) (u / 2 % 2 ^ 10) (u / 2 ^ 11 % 2) (u / 2 ^ 12 % 2 ^ 8) rd
          (omega arith) (omega arith) (omega arith) (omega arith) hd)

  pub branch_word :
      (f3 rs1 rs2 : ℕ)
      → f3 < 8
      → rs1 < 32
      → rs2 < 32
      → branch (pos f3) (pos rs1) (pos rs2) imm
        ≡ pos (
            b_word (u / 2 ^ 12 % 2) (u / 2 ^ 11 % 2) (u / 2 ^ 5 % 2 ^ 6) (u / 2 % 2 ^ 4) rs2 rs1 f3)
  unfolding branch ◌<<ℤ◌
  branch_word f3 rs1 rs2 h3 h1 h2 =
      rw
        (
          field_shifted 12 1 31 imm (omega arith),
          field_shifted 11 1 7 imm (omega arith),
          field_shifted 5 6 25 imm (omega arith),
          field_shifted 1 4 8 imm (omega arith),
        )
        (b_chain (u / 2 ^ 12 % 2) (u / 2 ^ 11 % 2) (u / 2 ^ 5 % 2 ^ 6) (u / 2 % 2 ^ 4) rs2 rs1 f3
          (omega arith) (omega arith) (omega arith) (omega arith) h2 h1 h3)

  pub store_word :
      (f3 rs1 rs2 : ℕ)
      → f3 < 8
      → rs1 < 32
      → rs2 < 32
      → store (pos f3) (pos rs1) (pos rs2) imm
        ≡ pos (s_word (u / 2 ^ 5 % 2 ^ 7) (u % 2 ^ 5) rs2 rs1 f3)
  unfolding store ◌<<ℤ◌
  store_word f3 rs1 rs2 h3 h1 h2 =
      rw (field_shifted 5 7 25 imm (omega arith), low_shifted 5 7 imm (omega arith))
        (s_chain (u / 2 ^ 5 % 2 ^ 7) (u % 2 ^ 5) rs2 rs1 f3 (omega arith) (omega arith) h2 h1 h3)
