-- ===== src/Words/Compressed.antt =====
-- The RV32C words without a scattered immediate.
use riscv_vibecoded.Words.Chain.{piece, or-or_chain, mask32-or_chain}
use riscv_vibecoded.Encoder.{mask32}
use riscv_vibecoded.Encoder.Compressed.{
  spn, ci_imm, c_cr, c_addi, c_li, c_lui, c_slli, c_shift, c_andi, c_alu,
}
use riscv_vibecoded.Py.Error.{ok}
use riscv_vibecoded.Py.Int.{ℤ, pos, ◌-ℤ◌, ◌|ℤ◌, ◌<<ℤ◌}
use riscv_vibecoded.Py.Int.Mask.{low32, field_shifted, low_shifted}
use riscv_vibecoded.Prelude.{
  ℕ, ◌+◌, ◌-◌, ◌*◌, ◌/◌, ◌%◌, ◌^◌, ◌≤◌, ◌<◌, bit_or, [], ◌∷◌, ◌≡◌, ap, ◌∙◌, arith,
}

-- A register of x8 .. x15 has the number r - 8.
pub spn_lem : (r : ℕ) → 8 ≤ r → r ≤ 15 → spn (pos r) ≡ ok (pos (r - 8))
unfolding spn ◌-ℤ◌
spn_lem r lo hi = ground arith

-- funct3, a bit at 12, a register, five bits at 2, and the quadrant.
abbrev pub ci_word : ℕ → ℕ → ℕ → ℕ → ℕ → ℕ
ci_word f3 rd a b quad = f3 * 2 ^ 13 + rd * 2 ^ 7 + a * 2 ^ 12 + b * 2 ^ 2 + quad

abbrev pub cr_word : ℕ → ℕ → ℕ → ℕ
cr_word f4 rs1 rs2 = f4 * 2 ^ 12 + rs1 * 2 ^ 7 + rs2 * 2 ^ 2 + 2

-- funct3 100, two bits at 10, a short register at 7, a bit at 12 and five bits at 2.
abbrev pub cb_word : ℕ → ℕ → ℕ → ℕ → ℕ
cb_word f2 r a b = 4 * 2 ^ 13 + f2 * 2 ^ 10 + r * 2 ^ 7 + a * 2 ^ 12 + b * 2 ^ 2 + 1

abbrev pub ca_word : ℕ → ℕ → ℕ → ℕ
ca_word r1 f2 r2 = 0b100011 * 2 ^ 10 + r1 * 2 ^ 7 + f2 * 2 ^ 5 + r2 * 2 ^ 2 + 1

ci_imm_word :
    (imm : ℤ)
    → ci_imm imm ≡ pos (bit_or (low32 imm / 2 ^ 5 % 2 * 2 ^ 12) (low32 imm % 2 ^ 5 * 2 ^ 2))
unfolding ci_imm ◌|ℤ◌
ci_imm_word imm = rw (field_shifted 5 1 12 imm (omega arith), low_shifted 5 2 imm (omega arith))

module _ (f3 rd a b quad : ℕ) (h3 : f3 < 8) (hd : rd < 32) (ha : a < 2) (hb : b < 32)
    (hq : quad < 4) where
  -- The fields one after the other.
  ci_chain :
      mask32
        (pos (f3 * 2 ^ 13) |ℤ pos (rd * 2 ^ 7) |ℤ pos (a * 2 ^ 12) |ℤ pos (b * 2 ^ 2) |ℤ pos quad)
      ≡ pos (ci_word f3 rd a b quad)
  unfolding ◌|ℤ◌
  ci_chain =
      mask32-or_chain (f3 * 2 ^ 13)
        (piece 7 5 (rd * 2 ^ 7)
          ∷ piece 12 1 (a * 2 ^ 12)
          ∷ piece 2 5 (b * 2 ^ 2)
          ∷ piece 0 2 quad
          ∷ [])
        (omega arith) (omega arith)

  -- The immediate put together first.
  ci_nested :
      mask32
        (pos (f3 * 2 ^ 13) |ℤ pos (rd * 2 ^ 7) |ℤ pos (bit_or (a * 2 ^ 12) (b * 2 ^ 2)) |ℤ pos quad)
      ≡ pos (ci_word f3 rd a b quad)
  unfolding ◌|ℤ◌
  ci_nested =
      ap (λ (t : ℕ). mask32 (pos (bit_or t quad)))
        (or-or_chain (bit_or (f3 * 2 ^ 13) (rd * 2 ^ 7)) (a * 2 ^ 12) (piece 2 5 (b * 2 ^ 2) ∷ []))
      ∙ unfold ◌|ℤ◌ in ci_chain

module _ (rd : ℕ) (imm : ℤ) (hd : rd < 32) where
  abbrev u : ℕ
  u = low32 imm

  pub c_addi_word : c_addi (pos rd) imm ≡ pos (ci_word 0 rd (u / 2 ^ 5 % 2) (u % 2 ^ 5) 1)
  unfolding c_addi ◌<<ℤ◌
  c_addi_word = rw (ci_imm_word imm) (
      ci_nested 0 rd (u / 2 ^ 5 % 2) (u % 2 ^ 5) 1 (omega arith) hd (omega arith) (omega arith)
        (omega arith))

  pub c_li_word : c_li (pos rd) imm ≡ pos (ci_word 2 rd (u / 2 ^ 5 % 2) (u % 2 ^ 5) 1)
  unfolding c_li ◌<<ℤ◌
  c_li_word = rw (ci_imm_word imm) (
      ci_nested 2 rd (u / 2 ^ 5 % 2) (u % 2 ^ 5) 1 (omega arith) hd (omega arith) (omega arith)
        (omega arith))

  pub c_lui_word : c_lui (pos rd) imm ≡ pos (ci_word 3 rd (u / 2 ^ 17 % 2) (u / 2 ^ 12 % 2 ^ 5) 1)
  unfolding c_lui ◌<<ℤ◌
  c_lui_word =
      rw (field_shifted 17 1 12 imm (omega arith), field_shifted 12 5 2 imm (omega arith))
        (ci_chain 3 rd (u / 2 ^ 17 % 2) (u / 2 ^ 12 % 2 ^ 5) 1 (omega arith) hd (omega arith)
          (omega arith) (omega arith))

  pub c_slli_word : c_slli (pos rd) imm ≡ pos (ci_word 0 rd (u / 2 ^ 5 % 2) (u % 2 ^ 5) 2)
  unfolding c_slli ◌<<ℤ◌
  c_slli_word =
      rw (field_shifted 5 1 12 imm (omega arith), low_shifted 5 2 imm (omega arith))
        (ci_chain 0 rd (u / 2 ^ 5 % 2) (u % 2 ^ 5) 2 (omega arith) hd (omega arith) (omega arith)
          (omega arith))

pub c_cr_word :
    (f4 rs1 rs2 : ℕ)
    → f4 < 16
    → rs1 < 32
    → rs2 < 32
    → c_cr (pos f4) (pos rs1) (pos rs2) ≡ pos (cr_word f4 rs1 rs2)
unfolding c_cr ◌|ℤ◌ ◌<<ℤ◌
c_cr_word f4 rs1 rs2 h4 h1 h2 =
    mask32-or_chain (f4 * 2 ^ 12)
      (piece 7 5 (rs1 * 2 ^ 7) ∷ piece 2 5 (rs2 * 2 ^ 2) ∷ piece 0 2 2 ∷ []) (omega arith)
      (omega arith)

module _ (f2 r a b : ℕ) (hf : f2 < 4) (hr : r < 8) (ha : a < 2) (hb : b < 32) where
  cb_chain :
      mask32 (
        pos (4 * 2 ^ 13)
        |ℤ pos (f2 * 2 ^ 10)
        |ℤ pos (r * 2 ^ 7)
        |ℤ pos (a * 2 ^ 12)
        |ℤ pos (b * 2 ^ 2)
        |ℤ pos 1)
      ≡ pos (cb_word f2 r a b)
  unfolding ◌|ℤ◌
  cb_chain =
      mask32-or_chain (4 * 2 ^ 13)
        (piece 10 2 (f2 * 2 ^ 10)
          ∷ piece 7 3 (r * 2 ^ 7)
          ∷ piece 12 1 (a * 2 ^ 12)
          ∷ piece 2 5 (b * 2 ^ 2)
          ∷ piece 0 2 1
          ∷ [])
        (omega arith) (omega arith)

  cb_nested :
      mask32 (
        pos (4 * 2 ^ 13)
        |ℤ pos (f2 * 2 ^ 10)
        |ℤ pos (r * 2 ^ 7)
        |ℤ pos (bit_or (a * 2 ^ 12) (b * 2 ^ 2))
        |ℤ pos 1)
      ≡ pos (cb_word f2 r a b)
  unfolding ◌|ℤ◌
  cb_nested =
      ap (λ (t : ℕ). mask32 (pos (bit_or t 1)))
        (or-or_chain (bit_or (bit_or (4 * 2 ^ 13) (f2 * 2 ^ 10)) (r * 2 ^ 7)) (a * 2 ^ 12)
          (piece 2 5 (b * 2 ^ 2) ∷ []))
      ∙ unfold ◌|ℤ◌ in cb_chain

module _ (r : ℕ) (imm : ℤ) (lo : 8 ≤ r) (hi : r ≤ 15) where
  pub c_shift_word :
      (f2 : ℕ)
      → f2 < 4
      → c_shift (pos r) (pos f2) imm
        ≡ ok (pos (cb_word f2 (r - 8) (low32 imm / 2 ^ 5 % 2) (low32 imm % 2 ^ 5)))
  unfolding c_shift ◌<<ℤ◌
  c_shift_word f2 hf = rw (
    spn_lem r lo hi,
    field_shifted 5 1 12 imm (omega arith),
    low_shifted 5 2 imm (omega arith),
    cb_chain f2 (r - 8) (low32 imm / 2 ^ 5 % 2) (low32 imm % 2 ^ 5) hf (omega arith) (omega arith)
        (omega arith),
  )

  pub c_andi_word :
      c_andi (pos r) imm ≡ ok (pos (cb_word 2 (r - 8) (low32 imm / 2 ^ 5 % 2) (low32 imm % 2 ^ 5)))
  unfolding c_andi ◌<<ℤ◌
  c_andi_word = rw (
    spn_lem r lo hi,
    ci_imm_word imm,
    cb_nested 2 (r - 8) (low32 imm / 2 ^ 5 % 2) (low32 imm % 2 ^ 5) (omega arith) (omega arith)
        (omega arith) (omega arith),
  )

pub c_alu_word :
    (r1 r2 f2 : ℕ)
    → 8 ≤ r1
    → r1 ≤ 15
    → 8 ≤ r2
    → r2 ≤ 15
    → f2 < 4
    → c_alu (pos r1) (pos r2) (pos f2) ≡ ok (pos (ca_word (r1 - 8) f2 (r2 - 8)))
unfolding c_alu ◌|ℤ◌ ◌<<ℤ◌
c_alu_word r1 r2 f2 lo1 hi1 lo2 hi2 hf =
    rw (spn_lem r1 lo1 hi1, spn_lem r2 lo2 hi2)
      (ap ok (
        mask32-or_chain (0b100011 * 2 ^ 10)
          (piece 7 3 ((r1 - 8) * 2 ^ 7)
            ∷ piece 5 2 (f2 * 2 ^ 5)
            ∷ piece 2 3 ((r2 - 8) * 2 ^ 2)
            ∷ piece 0 2 1
            ∷ [])
          (omega arith) (omega arith)))
