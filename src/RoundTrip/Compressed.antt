-- ===== src/RoundTrip/Compressed.antt =====
-- The RV32C helpers of tools/riscv_enc.py without a scattered immediate.
use riscv_vibecoded.Isa.Insn.{op, op_imm, load_upper, jump_link_reg, system, bytes, Encodes}
use riscv_vibecoded.Words.Compressed.{
  ci_word, cr_word, c_addi_word, c_li_word, c_lui_word, c_slli_word, c_cr_word,
}
use riscv_vibecoded.Decoded.Compressed.{
  decode-c_addi, decode-c_li, decode-c_lui, decode-c_slli, decode-c_mv, decode-c_add, decode-c_jr,
  decode-c_jalr, decode-c_ebreak,
}
use riscv_vibecoded.Encoder.Compressed.{
  c_addi, c_li, c_lui, c_slli, c_cr, c_add, c_mv, c_jr, c_jalr, c_ebreak,
}
use riscv_vibecoded.Py.Int.{ℤ, pos, negsuc, ◌≤ℤ◌, ◌%ℤ◌}
use riscv_vibecoded.Py.Int.Mask.{low32, low32-lt, low32_signed}
use riscv_vibecoded.RoundTrip.Outcome.{Succeeds}
use riscv_vibecoded.Prelude.{
  ℕ, ◌+◌, ◌-◌, ◌*◌, ◌/◌, ◌%◌, ◌^◌, ◌≤◌, ◌<◌, ◌≡◌, ◌≢◌, ◌⊎◌, some, none, refl, ap, ◌∙◌, arith,
}

module _ (rd : ℕ) (imm : ℤ) (hd : rd < 32) where
  abbrev u : ℕ
  u = low32 imm

  module _ (lo : negsuc 31 ≤ℤ imm) (hi : imm ≤ℤ pos 31) where
    sext6 : u / 2 ^ 5 % 2 * (2 ^ 32 - 2 ^ 5) + u % 2 ^ 5 ≡ u
    sext6 =
        let signed : (u < 32) ⊎ (2 ^ 32 ≤ u + 32) =
          low32_signed 32 imm (omega arith) (omega arith) lo hi in
        omega (arith, low32-lt imm)

    pub c_addi-Encodes : Encodes (c_addi (pos rd) imm) 2 (op_imm 0 rd rd u)
    unfolding bytes
    c_addi-Encodes = record {
      word = ci_word 0 rd (u / 2 ^ 5 % 2) (u % 2 ^ 5) 1;
      is_word = c_addi_word rd imm hd;
      fits = omega arith;
      sized = ground arith;
      decoded =
          decode-c_addi rd (u / 2 ^ 5 % 2) (u % 2 ^ 5) hd (omega arith) (omega arith)
          ∙ ap (λ (t : ℕ). some (op_imm 0 rd rd t)) sext6;
    }

    pub c_li-Encodes : Encodes (c_li (pos rd) imm) 2 (op_imm 0 0 rd u)
    unfolding bytes
    c_li-Encodes = record {
      word = ci_word 2 rd (u / 2 ^ 5 % 2) (u % 2 ^ 5) 1;
      is_word = c_li_word rd imm hd;
      fits = omega arith;
      sized = ground arith;
      decoded =
          decode-c_li rd (u / 2 ^ 5 % 2) (u % 2 ^ 5) hd (omega arith) (omega arith)
          ∙ ap (λ (t : ℕ). some (op_imm 0 0 rd t)) sext6;
    }

    -- For a register below 32 and an immediate of -32 .. 31, `c_addi` and `c_li` are 2-byte words
    -- that decode to addi rd, rd and addi rd, x0 with the immediate sign-extended to 32 bits.
    pub small_immediates-Encodes :
        Encodes (c_addi (pos rd) imm) 2 (op_imm 0 rd rd u)
        × Encodes (c_li (pos rd) imm) 2 (op_imm 0 0 rd u)
    small_immediates-Encodes = (c_addi-Encodes, c_li-Encodes)

-- `c_lui` with a register other than x2 and a nonzero immediate of -2 ^ 17 .. 2 ^ 17 - 1, a multiple
-- of 4096, abbreviates lui with that immediate sign-extended to 32 bits.
pub c_lui-Encodes :
    (rd : ℕ) (imm : ℤ)
    → rd < 32
    → rd ≢ 2
    → low32 imm ≢ 0
    → low32 imm % 4096 ≡ 0
    → negsuc 131071 ≤ℤ imm
    → imm ≤ℤ pos 131071
    → Encodes (c_lui (pos rd) imm) 2 (load_upper rd (low32 imm))
unfolding bytes
c_lui-Encodes rd imm hd ne nonzero page lo hi =
    let u : ℕ = low32 imm in
    let signed : (u < 2 ^ 17) ⊎ (2 ^ 32 ≤ u + 2 ^ 17) =
      low32_signed (2 ^ 17) imm (omega arith) (omega arith) lo hi in
    let bound : u < 2 ^ 32 = low32-lt imm in
    let whole : u / 2 ^ 17 % 2 * (2 ^ 32 - 2 ^ 17) + u / 2 ^ 12 % 2 ^ 5 * 2 ^ 12 ≡ u =
      omega arith in
    record {
      word = ci_word 3 rd (u / 2 ^ 17 % 2) (u / 2 ^ 12 % 2 ^ 5) 1;
      is_word = c_lui_word rd imm hd;
      fits = omega arith;
      sized = ground arith;
      decoded =
          decode-c_lui rd (u / 2 ^ 17 % 2) (u / 2 ^ 12 % 2 ^ 5) hd (omega arith) (omega arith) ne
            (omega arith)
          ∙ ap (λ (t : ℕ). some (load_upper rd t)) whole;
    }

pub c_slli-Encodes :
    (rd shamt : ℕ)
    → rd < 32
    → shamt < 32
    → Encodes (c_slli (pos rd) (pos shamt)) 2 (op_imm 1 rd rd shamt)
unfolding bytes ◌%ℤ◌
c_slli-Encodes rd shamt hd hs = record {
  word = ci_word 0 rd 0 shamt 2;
  is_word = c_slli_word rd (pos shamt) hd ∙ ap pos (omega arith);
  fits = omega arith;
  sized = ground arith;
  decoded = decode-c_slli rd shamt hd hs;
}

cr-fits : (f4 rs1 rs2 : ℕ) → f4 < 16 → rs1 < 32 → rs2 < 32 → cr_word f4 rs1 rs2 < 2 ^ 16
cr-fits f4 rs1 rs2 h4 h1 h2 = omega arith

cr-sized : (f4 rs1 rs2 : ℕ) → bytes (cr_word f4 rs1 rs2) ≡ 2
unfolding bytes
cr-sized f4 rs1 rs2 = ground arith

module _ (rd rs2 : ℕ) (hd : rd < 32) (h2 : rs2 < 32) (nonzero : 0 < rs2) where
  pub c_mv-Encodes : Encodes (c_mv (pos rd) (pos rs2)) 2 (op 0 0 0 rs2 rd)
  unfolding c_mv
  c_mv-Encodes = record {
    word = cr_word 8 rd rs2;
    is_word = c_cr_word 8 rd rs2 (omega arith) hd h2;
    fits = cr-fits 8 rd rs2 (omega arith) hd h2;
    sized = cr-sized 8 rd rs2;
    decoded = decode-c_mv rd rs2 hd h2 nonzero;
  }

  add-Encodes : Encodes (c_cr (pos 9) (pos rd) (pos rs2)) 2 (op 0 0 rd rs2 rd)
  add-Encodes = record {
    word = cr_word 9 rd rs2;
    is_word = c_cr_word 9 rd rs2 (omega arith) hd h2;
    fits = cr-fits 9 rd rs2 (omega arith) hd h2;
    sized = cr-sized 9 rd rs2;
    decoded = decode-c_add rd rs2 hd h2 nonzero;
  }

  pub c_add-Encodes :
      Succeeds (c_add (pos rd) (pos rs2) none) 2 (op 0 0 rd rs2 rd)
      × Succeeds (c_add (pos rd) (pos rs2) (some (pos rd))) 2 (op 0 0 rd rs2 rd)
  unfolding c_add
  c_add-Encodes = (
    (c_cr (pos 9) (pos rd) (pos rs2), refl, add-Encodes),
    (c_cr (pos 9) (pos rd) (pos rs2), ground arith, add-Encodes),
  )

  -- For registers below 32 with a source other than x0, `c_mv`, and `c_add` without its third
  -- argument or with one equal to the first, are 2-byte words that decode to add rd, x0, rs2 and
  -- add rd, rd, rs2.
  pub moves-Encodes :
      Encodes (c_mv (pos rd) (pos rs2)) 2 (op 0 0 0 rs2 rd)
      × Succeeds (c_add (pos rd) (pos rs2) none) 2 (op 0 0 rd rs2 rd)
      × Succeeds (c_add (pos rd) (pos rs2) (some (pos rd))) 2 (op 0 0 rd rs2 rd)
  moves-Encodes = (c_mv-Encodes, c_add-Encodes.0, c_add-Encodes.1)

-- `c_jr` and `c_jalr` with a register other than x0 abbreviate the indirect jump to that register
-- with offset 0, with x0 and with x1 as the link register; `c_ebreak` is ebreak.
pub c_jump-Encodes :
    (rs1 : ℕ)
    → rs1 < 32
    → 0 < rs1
    → Encodes (c_jr (pos rs1)) 2 (jump_link_reg rs1 0 0)
      × Encodes (c_jalr (pos rs1)) 2 (jump_link_reg rs1 1 0)
      × Encodes c_ebreak 2 (system 0 1 0 0)
unfolding c_jr c_jalr c_ebreak
c_jump-Encodes rs1 h nonzero = (
  record {
    word = cr_word 8 rs1 0;
    is_word = c_cr_word 8 rs1 0 (omega arith) h (omega arith);
    fits = cr-fits 8 rs1 0 (omega arith) h (omega arith);
    sized = cr-sized 8 rs1 0;
    decoded = decode-c_jr rs1 h nonzero;
  },
  record {
    word = cr_word 9 rs1 0;
    is_word = c_cr_word 9 rs1 0 (omega arith) h (omega arith);
    fits = cr-fits 9 rs1 0 (omega arith) h (omega arith);
    sized = cr-sized 9 rs1 0;
    decoded = decode-c_jalr rs1 h nonzero;
  },
  record {
    word = cr_word 9 0 0;
    is_word = c_cr_word 9 0 0 (omega arith) (omega arith) (omega arith);
    fits = cr-fits 9 0 0 (omega arith) (omega arith) (omega arith);
    sized = cr-sized 9 0 0;
    decoded = decode-c_ebreak;
  },
)
