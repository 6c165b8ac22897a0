-- ===== src/RoundTrip/Scattered.antt =====
-- The RV32C jumps and branches of tools/riscv_enc.py.
use riscv_vibecoded.Isa.Insn.{jump_link, branch_if, bytes, Encodes}
use riscv_vibecoded.Words.Scattered.{cj_word_of, c_j_word, c_jal_word}
use riscv_vibecoded.Words.Branch.{cbr_word_of, c_beqz_word, c_bnez_word}
use riscv_vibecoded.Decoded.Scattered.{
  cj_fields, cbr_fields, decode-c_j, decode-c_jal, decode-c_beqz, decode-c_bnez,
}
use riscv_vibecoded.Encoder.Compressed.{c_j, c_jal, c_beqz, c_bnez}
use riscv_vibecoded.Py.Int.{ℤ, pos, negsuc, ◌≤ℤ◌, ◌%ℤ◌}
use riscv_vibecoded.Py.Int.Mask.{low32, low32-lt, low32_signed, low32_mod}
use riscv_vibecoded.RoundTrip.Outcome.{Succeeds}
use riscv_vibecoded.Prelude.{ℕ, ◌+◌, ◌-◌, ◌%◌, ◌^◌, ◌≤◌, ◌<◌, ◌≡◌, ◌⊎◌, some, refl, ap, ◌∙◌, arith}

module _ (imm : ℤ) (even : imm %ℤ 2 ≡ 0) where
  even_word : low32 imm % 2 ≡ 0
  even_word = omega (arith, low32_mod 1 imm (omega arith))

  -- `c_j` and `c_jal` with an even offset of -2048 .. 2047 abbreviate jal with that offset,
  -- sign-extended to 32 bits, with x0 and with x1 as the link register.
  pub c_jumps-Encodes :
      negsuc 2047 ≤ℤ imm
      → imm ≤ℤ pos 2047
      → Encodes (c_j imm) 2 (jump_link 0 (low32 imm))
        × Encodes (c_jal imm) 2 (jump_link 1 (low32 imm))
  unfolding bytes
  c_jumps-Encodes lo hi =
      let u : ℕ = low32 imm in
      let signed : (u < 2048) ⊎ (2 ^ 32 ≤ u + 2048) =
        low32_signed 2048 imm (omega arith) (omega arith) lo hi in
      let j = cj_fields 5 u (omega arith) in
      let jal = cj_fields 1 u (omega arith) in
      (
        record {
          word = cj_word_of 5 u;
          is_word = c_j_word imm;
          fits = j.2;
          sized = rw j.0;
          decoded = decode-c_j u (low32-lt imm) even_word signed;
        },
        record {
          word = cj_word_of 1 u;
          is_word = c_jal_word imm;
          fits = jal.2;
          sized = rw jal.0;
          decoded = decode-c_jal u (low32-lt imm) even_word signed;
        },
      )

  -- `c_beqz` and `c_bnez` with a register of x8 .. x15 and an even offset of -256 .. 255 abbreviate
  -- beq and bne of that register with x0 and with the offset sign-extended to 32 bits.
  pub c_branches-Encodes :
      (r : ℕ)
      → 8 ≤ r
      → r ≤ 15
      → negsuc 255 ≤ℤ imm
      → imm ≤ℤ pos 255
      → Succeeds (c_beqz (pos r) imm) 2 (branch_if 0 r 0 (low32 imm))
        × Succeeds (c_bnez (pos r) imm) 2 (branch_if 1 r 0 (low32 imm))
  unfolding bytes
  c_branches-Encodes r low high lo hi =
      let u : ℕ = low32 imm in
      let signed : (u < 256) ⊎ (2 ^ 32 ≤ u + 256) =
        low32_signed 256 imm (omega arith) (omega arith) lo hi in
      let short : r - 8 < 8 = omega arith in
      let whole : 8 + (r - 8) ≡ r = omega arith in
      let beqz = cbr_fields 6 (r - 8) u (omega arith) short in
      let bnez = cbr_fields 7 (r - 8) u (omega arith) short in
      (
        (
          pos (cbr_word_of 6 (r - 8) u),
          c_beqz_word r imm low high,
          record {
            word = cbr_word_of 6 (r - 8) u;
            is_word = refl;
            fits = beqz.3;
            sized = rw beqz.0;
            decoded =
                decode-c_beqz (r - 8) u short (low32-lt imm) even_word signed
                ∙ ap (λ (t : ℕ). some (branch_if 0 t 0 u)) whole;
          },
        ),
        (
          pos (cbr_word_of 7 (r - 8) u),
          c_bnez_word r imm low high,
          record {
            word = cbr_word_of 7 (r - 8) u;
            is_word = refl;
            fits = bnez.3;
            sized = rw bnez.0;
            decoded =
                decode-c_bnez (r - 8) u short (low32-lt imm) even_word signed
                ∙ ap (λ (t : ℕ). some (branch_if 1 t 0 u)) whole;
          },
        ),
      )
