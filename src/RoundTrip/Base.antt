-- ===== src/RoundTrip/Base.antt =====
-- The RV32I helpers of tools/riscv_enc.py whose fields stand in one piece.
use riscv_vibecoded.Isa.Fields.{imm_i, imm_u}
use riscv_vibecoded.Isa.Insn.{
  op, op_imm, load_upper, add_upper_pc, jump_link_reg, load_from, decode32, decode, bytes, Encodes,
}
use riscv_vibecoded.Words.Base.{
  r_word, i_word, u_word, rtype_word, itype_word, load_word, jalr_word, lui_word, auipc_word,
}
use riscv_vibecoded.Encoder.Base.{rtype, itype, lui, auipc, jalr, load}
use riscv_vibecoded.Py.Int.{ℤ, pos, negsuc, ◌≤ℤ◌}
use riscv_vibecoded.Py.Int.Mask.{low32, low32-lt, low32_signed}
use riscv_vibecoded.Prelude.{ℕ, ◌+◌, ◌*◌, ◌%◌, ◌^◌, ◌≤◌, ◌<◌, ◌≡◌, ◌⊎◌, some, arith}

decode-r_word :
    (f7 rs2 rs1 f3 rd : ℕ)
    → f7 < 128
    → rs2 < 32
    → rs1 < 32
    → f3 < 8
    → rd < 32
    → decode (r_word f7 rs2 rs1 f3 rd 0x33) ≡ some (op f7 f3 rs1 rs2 rd)
unfolding decode decode32
decode-r_word f7 rs2 rs1 f3 rd h7 h2 h1 h3 hd = ground arith

-- `rtype` with its fields in range is the R-format instruction with these fields.
pub rtype-Encodes :
    (f3 f7 rs1 rs2 rd : ℕ)
    → f3 < 8
    → f7 < 128
    → rs1 < 32
    → rs2 < 32
    → rd < 32
    → Encodes (rtype (pos f3) (pos f7) (pos rs1) (pos rs2) (pos rd)) 4 (op f7 f3 rs1 rs2 rd)
unfolding bytes
rtype-Encodes f3 f7 rs1 rs2 rd h3 h7 h1 h2 hd = record {
  word = r_word f7 rs2 rs1 f3 rd 0x33;
  is_word = rtype_word f3 f7 rs1 rs2 rd h3 h7 h1 h2 hd;
  fits = omega arith;
  sized = ground arith;
  decoded = decode-r_word f7 rs2 rs1 f3 rd h7 h2 h1 h3 hd;
}

-- The 12 low bits of a number of -2048 .. 2047, sign-extended, are its word.
imm_i-i_word :
    (u rs1 f3 rd opcode : ℕ)
    → u < 2 ^ 32
    → (u < 2048) ⊎ (2 ^ 32 ≤ u + 2048)
    → rs1 < 32
    → f3 < 8
    → rd < 32
    → opcode < 128
    → imm_i (i_word (u % 2 ^ 12) rs1 f3 rd opcode) ≡ u
unfolding imm_i
imm_i-i_word u rs1 f3 rd opcode hu signs h1 h3 hd ho = ground arith

module _ (u rs1 f3 rd : ℕ) (h1 : rs1 < 32) (h3 : f3 < 8) (hd : rd < 32) (hu : u < 2 ^ 32)
    (signs : (u < 2048) ⊎ (2 ^ 32 ≤ u + 2048)) where
  decode-itype_word : decode (i_word (u % 2 ^ 12) rs1 f3 rd 0x13) ≡ some (op_imm f3 rs1 rd u)
  unfolding decode decode32
  decode-itype_word = ground (arith, imm_i-i_word u rs1 f3 rd 0x13)

  decode-load_word : decode (i_word (u % 2 ^ 12) rs1 f3 rd 0x03) ≡ some (load_from f3 rs1 rd u)
  unfolding decode decode32
  decode-load_word = ground (arith, imm_i-i_word u rs1 f3 rd 0x03)

module _ (f3 rs1 rd : ℕ) (imm : ℤ) (h3 : f3 < 8) (h1 : rs1 < 32) (hd : rd < 32)
    (lo : negsuc 2047 ≤ℤ imm) (hi : imm ≤ℤ pos 2047) where
  signs : (low32 imm < 2048) ⊎ (2 ^ 32 ≤ low32 imm + 2048)
  signs = low32_signed 2048 imm (omega arith) (omega arith) lo hi

  pub itype-Encodes :
      Encodes (itype (pos f3) (pos rs1) (pos rd) imm) 4 (op_imm f3 rs1 rd (low32 imm))
  unfolding bytes
  itype-Encodes = record {
    word = i_word (low32 imm % 2 ^ 12) rs1 f3 rd 0x13;
    is_word = itype_word f3 rs1 rd imm h3 h1 hd;
    fits = omega arith;
    sized = ground arith;
    decoded = decode-itype_word (low32 imm) rs1 f3 rd h1 h3 hd (low32-lt imm) signs;
  }

  pub load-Encodes :
      Encodes (load (pos f3) (pos rs1) (pos rd) imm) 4 (load_from f3 rs1 rd (low32 imm))
  unfolding bytes
  load-Encodes = record {
    word = i_word (low32 imm % 2 ^ 12) rs1 f3 rd 0x03;
    is_word = load_word f3 rs1 rd imm h3 h1 hd;
    fits = omega arith;
    sized = ground arith;
    decoded = decode-load_word (low32 imm) rs1 f3 rd h1 h3 hd (low32-lt imm) signs;
  }

decode-jalr_word :
    (u rs1 rd : ℕ)
    → rs1 < 32
    → rd < 32
    → u < 2 ^ 32
    → (u < 2048) ⊎ (2 ^ 32 ≤ u + 2048)
    → decode (i_word (u % 2 ^ 12) rs1 0 rd 0x67) ≡ some (jump_link_reg rs1 rd u)
unfolding decode decode32
decode-jalr_word u rs1 rd h1 hd hu signs = ground (arith, imm_i-i_word u rs1 0 rd 0x67)

pub jalr-Encodes :
    (rs1 rd : ℕ) (imm : ℤ)
    → rs1 < 32
    → rd < 32
    → negsuc 2047 ≤ℤ imm
    → imm ≤ℤ pos 2047
    → Encodes (jalr (pos rs1) (pos rd) imm) 4 (jump_link_reg rs1 rd (low32 imm))
unfolding bytes
jalr-Encodes rs1 rd imm h1 hd lo hi = record {
  word = i_word (low32 imm % 2 ^ 12) rs1 0 rd 0x67;
  is_word = jalr_word rs1 rd imm h1 hd;
  fits = omega arith;
  sized = ground arith;
  decoded =
      decode-jalr_word (low32 imm) rs1 rd h1 hd (low32-lt imm)
        (low32_signed 2048 imm (omega arith) (omega arith) lo hi);
}

module _ (u rd : ℕ) (hu : u < 2 ^ 20) (hd : rd < 32) where
  decode-lui_word : decode (u_word u rd 0x37) ≡ some (load_upper rd (u * 2 ^ 12))
  unfolding decode decode32 imm_u
  decode-lui_word = ground arith

  decode-auipc_word : decode (u_word u rd 0x17) ≡ some (add_upper_pc rd (u * 2 ^ 12))
  unfolding decode decode32 imm_u
  decode-auipc_word = ground arith

module _ (rd : ℕ) (imm20 : ℤ) (hd : rd < 32) where
  pub lui-Encodes : Encodes (lui (pos rd) imm20) 4 (load_upper rd (low32 imm20 % 2 ^ 20 * 2 ^ 12))
  unfolding bytes
  lui-Encodes = record {
    word = u_word (low32 imm20 % 2 ^ 20) rd 0x37;
    is_word = lui_word rd imm20 hd;
    fits = omega arith;
    sized = ground arith;
    decoded = decode-lui_word (low32 imm20 % 2 ^ 20) rd (omega arith) hd;
  }

  pub auipc-Encodes :
      Encodes (auipc (pos rd) imm20) 4 (add_upper_pc rd (low32 imm20 % 2 ^ 20 * 2 ^ 12))
  unfolding bytes
  auipc-Encodes = record {
    word = u_word (low32 imm20 % 2 ^ 20) rd 0x17;
    is_word = auipc_word rd imm20 hd;
    fits = omega arith;
    sized = ground arith;
    decoded = decode-auipc_word (low32 imm20 % 2 ^ 20) rd (omega arith) hd;
  }

  -- `lui` and `auipc` with a register below 32 and any immediate, negative or not, are 4-byte words
  -- that decode to lui and auipc with the 20 low bits of the immediate as the upper 20 bits.
  pub upper_immediates-Encodes :
      Encodes (lui (pos rd) imm20) 4 (load_upper rd (low32 imm20 % 2 ^ 20 * 2 ^ 12))
      × Encodes (auipc (pos rd) imm20) 4 (add_upper_pc rd (low32 imm20 % 2 ^ 20 * 2 ^ 12))
  upper_immediates-Encodes = (lui-Encodes, auipc-Encodes)

-- For funct3 below 8, registers below 32 and an immediate of -2048 .. 2047, `itype`, `load` and
-- `jalr` are 4-byte words that decode to the instructions with these fields and the immediate
-- sign-extended to 32 bits.
pub i_format-Encodes :
    (f3 rs1 rd : ℕ) (imm : ℤ)
    → f3 < 8
    → rs1 < 32
    → rd < 32
    → negsuc 2047 ≤ℤ imm
    → imm ≤ℤ pos 2047
    → Encodes (itype (pos f3) (pos rs1) (pos rd) imm) 4 (op_imm f3 rs1 rd (low32 imm))
      × Encodes (load (pos f3) (pos rs1) (pos rd) imm) 4 (load_from f3 rs1 rd (low32 imm))
      × Encodes (jalr (pos rs1) (pos rd) imm) 4 (jump_link_reg rs1 rd (low32 imm))
i_format-Encodes f3 rs1 rd imm h3 h1 hd lo hi = (
  itype-Encodes f3 rs1 rd imm h3 h1 hd lo hi,
  load-Encodes f3 rs1 rd imm h3 h1 hd lo hi,
  jalr-Encodes rs1 rd imm h1 hd lo hi,
)
