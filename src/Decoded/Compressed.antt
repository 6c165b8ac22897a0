-- ===== src/Decoded/Compressed.antt =====
-- What the RV32C words without a scattered immediate read back as.
use riscv_vibecoded.Isa.Fields.{c_imm_sext6, c_imm_lui, c_shamt}
use riscv_vibecoded.Isa.Insn.{
  op, op_imm, load_upper, jump_link_reg, system, decode16, decode, decode_quad1_alu,
  decode-quad1_alu,
}
use riscv_vibecoded.Words.Compressed.{ci_word, cr_word, cb_word, ca_word}
use riscv_vibecoded.Prelude.{
  ℕ, ◌+◌, ◌-◌, ◌*◌, ◌/◌, ◌%◌, ◌^◌, ◌<◌, ◌≡◌, ◌≢◌, ◌==◌, false, some, refl, ap, ◌∙◌, arith,
}

module _ (rd a b : ℕ) (hd : rd < 32) (ha : a < 2) (hb : b < 32) where
  pub decode-c_addi : decode (ci_word 0 rd a b 1) ≡ some (op_imm 0 rd rd (a * (2 ^ 32 - 2 ^ 5) + b))
  unfolding decode decode16 c_imm_sext6
  decode-c_addi = ground arith

  pub decode-c_li : decode (ci_word 2 rd a b 1) ≡ some (op_imm 0 0 rd (a * (2 ^ 32 - 2 ^ 5) + b))
  unfolding decode decode16 c_imm_sext6
  decode-c_li = ground arith

  c_imm_lui-ci_word : c_imm_lui (ci_word 3 rd a b 1) ≡ a * (2 ^ 32 - 2 ^ 17) + b * 2 ^ 12
  unfolding c_imm_lui
  c_imm_lui-ci_word = omega arith

  pub decode-c_lui :
      rd ≢ 2
      → 0 < a + b
      → decode (ci_word 3 rd a b 1) ≡ some (load_upper rd (a * (2 ^ 32 - 2 ^ 17) + b * 2 ^ 12))
  unfolding decode decode16
  decode-c_lui ne nonzero =
      let quadrant : ci_word 3 rd a b 1 / 2 ^ 0 % 2 ^ 2 ≡ 1 = omega arith in
      let funct3 : ci_word 3 rd a b 1 / 2 ^ 13 % 2 ^ 3 ≡ 3 = omega arith in
      let value : c_imm_lui (ci_word 3 rd a b 1) ≡ a * (2 ^ 32 - 2 ^ 17) + b * 2 ^ 12 =
        c_imm_lui-ci_word in
      let register : (ci_word 3 rd a b 1 / 2 ^ 7 % 2 ^ 5 == 2) ≡ false = ground arith in
      let shown : (a * (2 ^ 32 - 2 ^ 17) + b * 2 ^ 12 == 0) ≡ false = ground arith in
      rw (quadrant, funct3, register, value, shown)
        (ap (λ (t : ℕ). some (load_upper t (a * (2 ^ 32 - 2 ^ 17) + b * 2 ^ 12))) (omega arith))

pub decode-c_slli :
    (rd b : ℕ) → rd < 32 → b < 32 → decode (ci_word 0 rd 0 b 2) ≡ some (op_imm 1 rd rd b)
unfolding decode decode16 c_shamt
decode-c_slli rd b hd hb = ground arith

module _ (rd rs2 : ℕ) (hd : rd < 32) (h2 : rs2 < 32) where
  pub decode-c_mv : 0 < rs2 → decode (cr_word 8 rd rs2) ≡ some (op 0 0 0 rs2 rd)
  unfolding decode decode16
  decode-c_mv p = ground arith

  pub decode-c_add : 0 < rs2 → decode (cr_word 9 rd rs2) ≡ some (op 0 0 rd rs2 rd)
  unfolding decode decode16
  decode-c_add p = ground arith

module _ (rd : ℕ) (hd : rd < 32) (p : 0 < rd) where
  pub decode-c_jr : decode (cr_word 8 rd 0) ≡ some (jump_link_reg rd 0 0)
  unfolding decode decode16
  decode-c_jr = ground arith

  pub decode-c_jalr : decode (cr_word 9 rd 0) ≡ some (jump_link_reg rd 1 0)
  unfolding decode decode16
  decode-c_jalr = ground arith

module _ (r b : ℕ) (hr : r < 8) (hb : b < 32) where
  pub decode-c_srli : decode (cb_word 0 r 0 b) ≡ some (op_imm 5 (8 + r) (8 + r) b)
  unfolding decode_quad1_alu c_shamt
  decode-c_srli = decode-quad1_alu (cb_word 0 r 0 b) (omega arith) (omega arith) ∙ ground arith

  pub decode-c_srai : decode (cb_word 1 r 0 b) ≡ some (op_imm 5 (8 + r) (8 + r) (0x400 + b))
  unfolding decode_quad1_alu c_shamt
  decode-c_srai = decode-quad1_alu (cb_word 1 r 0 b) (omega arith) (omega arith) ∙ ground arith

  pub decode-c_andi :
      (a : ℕ)
      → a < 2
      → decode (cb_word 2 r a b) ≡ some (op_imm 7 (8 + r) (8 + r) (a * (2 ^ 32 - 2 ^ 5) + b))
  unfolding decode_quad1_alu c_imm_sext6
  decode-c_andi a ha = decode-quad1_alu (cb_word 2 r a b) (omega arith) (omega arith) ∙ ground arith

module _ (r1 r2 : ℕ) (h1 : r1 < 8) (h2 : r2 < 8) where
  pub decode-c_sub : decode (ca_word r1 0 r2) ≡ some (op 0x20 0 (8 + r1) (8 + r2) (8 + r1))
  unfolding decode_quad1_alu
  decode-c_sub = decode-quad1_alu (ca_word r1 0 r2) (omega arith) (omega arith) ∙ ground arith

  pub decode-c_xor : decode (ca_word r1 1 r2) ≡ some (op 0 4 (8 + r1) (8 + r2) (8 + r1))
  unfolding decode_quad1_alu
  decode-c_xor = decode-quad1_alu (ca_word r1 1 r2) (omega arith) (omega arith) ∙ ground arith

  pub decode-c_or : decode (ca_word r1 2 r2) ≡ some (op 0 6 (8 + r1) (8 + r2) (8 + r1))
  unfolding decode_quad1_alu
  decode-c_or = decode-quad1_alu (ca_word r1 2 r2) (omega arith) (omega arith) ∙ ground arith

  pub decode-c_and : decode (ca_word r1 3 r2) ≡ some (op 0 7 (8 + r1) (8 + r2) (8 + r1))
  unfolding decode_quad1_alu
  decode-c_and = decode-quad1_alu (ca_word r1 3 r2) (omega arith) (omega arith) ∙ ground arith

pub decode-c_ebreak : decode (cr_word 9 0 0) ≡ some (system 0 1 0 0)
unfolding decode decode16
decode-c_ebreak = refl
