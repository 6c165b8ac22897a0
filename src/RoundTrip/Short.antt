-- ===== src/RoundTrip/Short.antt =====
-- The RV32C helpers of tools/riscv_enc.py on the registers x8 .. x15.
use riscv_vibecoded.Isa.Insn.{Insn, op, op_imm, decode, bytes}
use riscv_vibecoded.Words.Compressed.{cb_word, ca_word, c_shift_word, c_andi_word, c_alu_word}
use riscv_vibecoded.Decoded.Compressed.{
  decode-c_srli, decode-c_srai, decode-c_andi, decode-c_sub, decode-c_xor, decode-c_or,
  decode-c_and,
}
use riscv_vibecoded.Encoder.Compressed.{
  c_shift, c_alu, c_srli, c_srai, c_andi, c_sub, c_xor, c_or, c_and,
}
use riscv_vibecoded.Py.Error.{ok}
use riscv_vibecoded.Py.Int.{ℤ, pos, negsuc, ◌≤ℤ◌, ◌%ℤ◌}
use riscv_vibecoded.Py.Int.Mask.{low32, low32-lt, low32_signed}
use riscv_vibecoded.RoundTrip.Outcome.{Succeeds}
use riscv_vibecoded.Prelude.{
  ℕ, ◌+◌, ◌-◌, ◌*◌, ◌/◌, ◌%◌, ◌^◌, ◌≤◌, ◌<◌, ◌≡◌, ◌⊎◌, some, refl, ap, ◌∙◌, arith,
}

shift_amount :
    (r f2 shamt : ℕ)
    → 8 ≤ r
    → r ≤ 15
    → f2 < 4
    → shamt < 32
    → c_shift (pos r) (pos f2) (pos shamt) ≡ ok (pos (cb_word f2 (r - 8) 0 shamt))
unfolding ◌%ℤ◌
shift_amount r f2 shamt lo hi hf hs =
    c_shift_word r (pos shamt) lo hi f2 hf ∙ ap (λ (t : ℕ). ok (pos t)) (omega arith)

register : (r : ℕ) → 8 ≤ r → 8 + (r - 8) ≡ r
register r lo = omega arith

module _ (r shamt : ℕ) (lo : 8 ≤ r) (hi : r ≤ 15) (hs : shamt < 32) where
  -- `c_srli` and `c_srai` with a register of x8 .. x15 and an amount of 0 .. 31 abbreviate the two
  -- right shifts of that register by that amount.
  pub c_shift-Encodes :
      Succeeds (c_srli (pos r) (pos shamt)) 2 (op_imm 5 r r shamt)
      × Succeeds (c_srai (pos r) (pos shamt)) 2 (op_imm 5 r r (0x400 + shamt))
  unfolding c_srli c_srai bytes
  c_shift-Encodes = (
    (
      pos (cb_word 0 (r - 8) 0 shamt),
      shift_amount r 0 shamt lo hi (omega arith) hs,
      record {
        word = cb_word 0 (r - 8) 0 shamt;
        is_word = refl;
        fits = omega arith;
        sized = ground arith;
        decoded =
            decode-c_srli (r - 8) shamt (omega arith) hs
            ∙ ap (λ (t : ℕ). some (op_imm 5 t t shamt)) (register r lo);
      },
    ),
    (
      pos (cb_word 1 (r - 8) 0 shamt),
      shift_amount r 1 shamt lo hi (omega arith) hs,
      record {
        word = cb_word 1 (r - 8) 0 shamt;
        is_word = refl;
        fits = omega arith;
        sized = ground arith;
        decoded =
            decode-c_srai (r - 8) shamt (omega arith) hs
            ∙ ap (λ (t : ℕ). some (op_imm 5 t t (0x400 + shamt))) (register r lo);
      },
    ),
  )

-- `c_andi` with a register of x8 .. x15 and an immediate of -32 .. 31 abbreviates
-- andi r, r, imm.
pub c_andi-Encodes :
    (r : ℕ) (imm : ℤ)
    → 8 ≤ r
    → r ≤ 15
    → negsuc 31 ≤ℤ imm
    → imm ≤ℤ pos 31
    → Succeeds (c_andi (pos r) imm) 2 (op_imm 7 r r (low32 imm))
unfolding bytes
c_andi-Encodes r imm lo hi low high =
    let u : ℕ = low32 imm in
    let signed : (u < 32) ⊎ (2 ^ 32 ≤ u + 32) =
      low32_signed 32 imm (omega arith) (omega arith) low high in
    let whole : u / 2 ^ 5 % 2 * (2 ^ 32 - 2 ^ 5) + u % 2 ^ 5 ≡ u = omega (arith, low32-lt imm) in
    (
      pos (cb_word 2 (r - 8) (u / 2 ^ 5 % 2) (u % 2 ^ 5)),
      c_andi_word r imm lo hi,
      record {
        word = cb_word 2 (r - 8) (u / 2 ^ 5 % 2) (u % 2 ^ 5);
        is_word = refl;
        fits = omega arith;
        sized = ground arith;
        decoded =
            decode-c_andi (r - 8) (u % 2 ^ 5) (omega arith) (omega arith) (u / 2 ^ 5 % 2)
              (omega arith)
            ∙ ap (λ (t : ℕ). some (op_imm 7 t t (a_of u))) (register r lo)
            ∙ ap (λ (t : ℕ). some (op_imm 7 r r t)) whole;
      },
    )
  where
    a_of : ℕ → ℕ
    a_of u = u / 2 ^ 5 % 2 * (2 ^ 32 - 2 ^ 5) + u % 2 ^ 5

module _ (r1 r2 : ℕ) (lo1 : 8 ≤ r1) (hi1 : r1 ≤ 15) (lo2 : 8 ≤ r2) (hi2 : r2 ≤ 15) where
  alu-Succeeds :
      (f2 : ℕ) (i : ℕ → ℕ → Insn)
      → f2 < 4
      → decode (ca_word (r1 - 8) f2 (r2 - 8)) ≡ some (i (8 + (r1 - 8)) (8 + (r2 - 8)))
      → Succeeds (c_alu (pos r1) (pos r2) (pos f2)) 2 (i r1 r2)
  unfolding bytes
  alu-Succeeds f2 i hf e = (
    pos (ca_word (r1 - 8) f2 (r2 - 8)),
    c_alu_word r1 r2 f2 lo1 hi1 lo2 hi2 hf,
    record {
      word = ca_word (r1 - 8) f2 (r2 - 8);
      is_word = refl;
      fits = omega arith;
      sized = ground arith;
      decoded =
          e
          ∙ ap (λ (t : ℕ). some (i t (8 + (r2 - 8)))) (register r1 lo1)
          ∙ ap (λ (t : ℕ). some (i r1 t)) (register r2 lo2);
    },
  )

  -- `c_sub`, `c_xor`, `c_or` and `c_and` with registers of x8 .. x15 abbreviate the operations on
  -- these registers with the first as destination.
  pub c_alu-Encodes :
      Succeeds (c_sub (pos r1) (pos r2)) 2 (op 0x20 0 r1 r2 r1)
      × Succeeds (c_xor (pos r1) (pos r2)) 2 (op 0 4 r1 r2 r1)
      × Succeeds (c_or (pos r1) (pos r2)) 2 (op 0 6 r1 r2 r1)
      × Succeeds (c_and (pos r1) (pos r2)) 2 (op 0 7 r1 r2 r1)
  unfolding c_sub c_xor c_or c_and
  c_alu-Encodes =
      let h1 : r1 - 8 < 8 = omega arith in
      let h2 : r2 - 8 < 8 = omega arith in
      (
        alu-Succeeds 0 (λ a b. op 0x20 0 a b a) (omega arith)
            (decode-c_sub (r1 - 8) (r2 - 8) h1 h2),
        alu-Succeeds 1 (λ a b. op 0 4 a b a) (omega arith) (decode-c_xor (r1 - 8) (r2 - 8) h1 h2),
        alu-Succeeds 2 (λ a b. op 0 6 a b a) (omega arith) (decode-c_or (r1 - 8) (r2 - 8) h1 h2),
        alu-Succeeds 3 (λ a b. op 0 7 a b a) (omega arith) (decode-c_and (r1 - 8) (r2 - 8) h1 h2),
      )
