-- ===== src/Words/Base.antt =====
-- The RV32I words.
use riscv_vibecoded.Words.Chain.{piece, mask32-or_chain}
use riscv_vibecoded.Encoder.{mask32}
use riscv_vibecoded.Encoder.Base.{rtype, itype, lui, auipc, jalr, load}
use riscv_vibecoded.Py.Int.{ℤ, pos, ◌|ℤ◌, ◌<<ℤ◌}
use riscv_vibecoded.Py.Int.Mask.{low32, low_shifted}
use riscv_vibecoded.Prelude.{ℕ, ◌+◌, ◌*◌, ◌%◌, ◌^◌, ◌<◌, [], ◌∷◌, ◌≡◌, ap, ◌∙◌, arith}

-- The fields of each format, as numbers that fit their places.
abbrev pub r_word : ℕ → ℕ → ℕ → ℕ → ℕ → ℕ → ℕ
r_word f7 rs2 rs1 f3 rd opcode =
    f7 * 2 ^ 25 + rs2 * 2 ^ 20 + rs1 * 2 ^ 15 + f3 * 2 ^ 12 + rd * 2 ^ 7 + opcode

abbrev pub i_word : ℕ → ℕ → ℕ → ℕ → ℕ → ℕ
i_word imm rs1 f3 rd opcode = imm * 2 ^ 20 + rs1 * 2 ^ 15 + f3 * 2 ^ 12 + rd * 2 ^ 7 + opcode

abbrev pub u_word : ℕ → ℕ → ℕ → ℕ
u_word imm rd opcode = imm * 2 ^ 12 + rd * 2 ^ 7 + opcode

pub rtype_word :
    (f3 f7 rs1 rs2 rd : ℕ)
    → f3 < 8
    → f7 < 128
    → rs1 < 32
    → rs2 < 32
    → rd < 32
    → rtype (pos f3) (pos f7) (pos rs1) (pos rs2) (pos rd) ≡ pos (r_word f7 rs2 rs1 f3 rd 0x33)
unfolding rtype ◌|ℤ◌ ◌<<ℤ◌
rtype_word f3 f7 rs1 rs2 rd h3 h7 h1 h2 hd =
    mask32-or_chain (f7 * 2 ^ 25)
      (piece 20 5 (rs2 * 2 ^ 20)
        ∷ piece 15 5 (rs1 * 2 ^ 15)
        ∷ piece 12 3 (f3 * 2 ^ 12)
        ∷ piece 7 5 (rd * 2 ^ 7)
        ∷ piece 0 7 0x33
        ∷ [])
      (omega arith) (omega arith)

-- The chain that itype, load and csr share; jalr leaves funct3 out.
pub i_chain :
    (imm rs1 f3 rd opcode : ℕ)
    → imm < 4096
    → rs1 < 32
    → f3 < 8
    → rd < 32
    → opcode < 128
    → mask32 (
        pos (imm * 2 ^ 20)
        |ℤ pos (rs1 * 2 ^ 15)
        |ℤ pos (f3 * 2 ^ 12)
        |ℤ pos (rd * 2 ^ 7)
        |ℤ pos opcode)
      ≡ pos (i_word imm rs1 f3 rd opcode)
unfolding ◌|ℤ◌
i_chain imm rs1 f3 rd opcode hi h1 h3 hd ho =
    mask32-or_chain (imm * 2 ^ 20)
      (piece 15 5 (rs1 * 2 ^ 15)
        ∷ piece 12 3 (f3 * 2 ^ 12)
        ∷ piece 7 5 (rd * 2 ^ 7)
        ∷ piece 0 7 opcode
        ∷ [])
      (omega arith) (omega arith)

module _ (f3 rs1 rd : ℕ) (imm : ℤ) (h3 : f3 < 8) (h1 : rs1 < 32) (hd : rd < 32) where
  pub itype_word :
      itype (pos f3) (pos rs1) (pos rd) imm ≡ pos (i_word (low32 imm % 2 ^ 12) rs1 f3 rd 0x13)
  unfolding itype ◌<<ℤ◌
  itype_word =
      rw (low_shifted 12 20 imm (omega arith))
        (i_chain (low32 imm % 2 ^ 12) rs1 f3 rd 0x13 (omega arith) h1 h3 hd (omega arith))

  pub load_word :
      load (pos f3) (pos rs1) (pos rd) imm ≡ pos (i_word (low32 imm % 2 ^ 12) rs1 f3 rd 0x03)
  unfolding load ◌<<ℤ◌
  load_word =
      rw (low_shifted 12 20 imm (omega arith))
        (i_chain (low32 imm % 2 ^ 12) rs1 f3 rd 0x03 (omega arith) h1 h3 hd (omega arith))

pub jalr_word :
    (rs1 rd : ℕ) (imm : ℤ)
    → rs1 < 32
    → rd < 32
    → jalr (pos rs1) (pos rd) imm ≡ pos (i_word (low32 imm % 2 ^ 12) rs1 0 rd 0x67)
unfolding jalr ◌|ℤ◌ ◌<<ℤ◌
jalr_word rs1 rd imm h1 hd = rw (low_shifted 12 20 imm (omega arith)) (
    mask32-or_chain (low32 imm % 2 ^ 12 * 2 ^ 20)
      (piece 15 5 (rs1 * 2 ^ 15) ∷ piece 7 5 (rd * 2 ^ 7) ∷ piece 0 7 0x67 ∷ []) (omega arith)
      (omega arith)
    ∙ ap pos (omega arith))

u_chain :
    (imm rd opcode : ℕ)
    → imm < 2 ^ 20
    → rd < 32
    → opcode < 128
    → mask32 (pos (imm * 2 ^ 12) |ℤ pos (rd * 2 ^ 7) |ℤ pos opcode) ≡ pos (u_word imm rd opcode)
unfolding ◌|ℤ◌
u_chain imm rd opcode hi hd ho =
    mask32-or_chain (imm * 2 ^ 12) (piece 7 5 (rd * 2 ^ 7) ∷ piece 0 7 opcode ∷ []) (omega arith)
      (omega arith)

module _ (rd : ℕ) (imm20 : ℤ) (hd : rd < 32) where
  pub lui_word : lui (pos rd) imm20 ≡ pos (u_word (low32 imm20 % 2 ^ 20) rd 0x37)
  unfolding lui ◌<<ℤ◌
  lui_word =
      rw (low_shifted 20 12 imm20 (omega arith))
        (u_chain (low32 imm20 % 2 ^ 20) rd 0x37 (omega arith) hd (omega arith))

  pub auipc_word : auipc (pos rd) imm20 ≡ pos (u_word (low32 imm20 % 2 ^ 20) rd 0x17)
  unfolding auipc ◌<<ℤ◌
  auipc_word =
      rw (low_shifted 20 12 imm20 (omega arith))
        (u_chain (low32 imm20 % 2 ^ 20) rd 0x17 (omega arith) hd (omega arith))
