-- ===== src/Decoded/Scattered.antt =====
-- What the RV32C jumps and branches read back as.
use riscv_vibecoded.Isa.Fields.{slice, c_imm_cj, c_imm_cb}
use riscv_vibecoded.Isa.Insn.{jump_link, branch_if, decode16, decode}
use riscv_vibecoded.Words.Scattered.{bit_of, cj_word, cj_word_of}
use riscv_vibecoded.Words.Branch.{cbr_word, cbr_word_of}
use riscv_vibecoded.Prelude.{ℕ, ◌+◌, ◌-◌, ◌*◌, ◌/◌, ◌%◌, ◌^◌, ◌≤◌, ◌<◌, ◌≡◌, ◌⊎◌, ◌∙◌, some, arith}

-- The decoder's jump offset, from the bits in the word.
c_imm_cj-cj_word :
    (f3 i11 i10 i9 i8 i7 i6 i5 i4 i3 i2 i1 : ℕ)
    → f3 < 8
    → i11 < 2
    → i10 < 2
    → i9 < 2
    → i8 < 2
    → i7 < 2
    → i6 < 2
    → i5 < 2
    → i4 < 2
    → i3 < 2
    → i2 < 2
    → i1 < 2
    → c_imm_cj (cj_word f3 i11 i10 i9 i8 i7 i6 i5 i4 i3 i2 i1)
      ≡ i11 * (2 ^ 32 - 2 ^ 11)
        + i10 * 2 ^ 10
        + i9 * 2 ^ 9
        + i8 * 2 ^ 8
        + i7 * 2 ^ 7
        + i6 * 2 ^ 6
        + i5 * 2 ^ 5
        + i4 * 2 ^ 4
        + i3 * 2 ^ 3
        + i2 * 2 ^ 2
        + i1 * 2
unfolding c_imm_cj
c_imm_cj-cj_word f3 i11 i10 i9 i8 i7 i6 i5 i4 i3 i2 i1 h3 h11 h10 h9 h8 h7 h6 h5 h4 h3' h2 h1 =
    omega arith

-- An even offset of -2048 .. 2047 comes back whole.
c_imm_cj-cj_word_of :
    (f3 u : ℕ)
    → f3 < 8
    → u < 2 ^ 32
    → u % 2 ≡ 0
    → (u < 2048) ⊎ (2 ^ 32 ≤ u + 2048)
    → c_imm_cj (cj_word_of f3 u) ≡ u
c_imm_cj-cj_word_of f3 u h3 hu even signed =
    c_imm_cj-cj_word f3 (bit_of u 11) (bit_of u 10) (bit_of u 9) (bit_of u 8) (bit_of u 7)
      (bit_of u 6) (bit_of u 5) (bit_of u 4) (bit_of u 3) (bit_of u 2) (bit_of u 1) h3 (omega arith)
      (omega arith) (omega arith) (omega arith) (omega arith) (omega arith) (omega arith)
      (omega arith) (omega arith) (omega arith) (omega arith)
    ∙ omega arith

pub cj_fields :
    (f3 u : ℕ)
    → f3 < 8
    → (slice 1 0 (cj_word_of f3 u) ≡ 1)
      × (slice 15 13 (cj_word_of f3 u) ≡ f3)
      × (cj_word_of f3 u < 2 ^ 16)
cj_fields f3 u h = (omega arith, omega arith, omega arith)

module _ (u : ℕ) (hu : u < 2 ^ 32) (even : u % 2 ≡ 0)
    (signed : (u < 2048) ⊎ (2 ^ 32 ≤ u + 2048)) where
  pub decode-c_j : decode (cj_word_of 5 u) ≡ some (jump_link 0 u)
  unfolding decode decode16
  decode-c_j =
      let fields = cj_fields 5 u (omega arith) in
      rw (fields.0, fields.1, c_imm_cj-cj_word_of 5 u (omega arith) hu even signed)

  pub decode-c_jal : decode (cj_word_of 1 u) ≡ some (jump_link 1 u)
  unfolding decode decode16
  decode-c_jal =
      let fields = cj_fields 1 u (omega arith) in
      rw (fields.0, fields.1, c_imm_cj-cj_word_of 1 u (omega arith) hu even signed)

-- The decoder's branch offset.
c_imm_cb-cbr_word :
    (f3 r a b c d e : ℕ)
    → f3 < 8
    → r < 8
    → a < 2
    → b < 4
    → c < 2
    → d < 4
    → e < 4
    → c_imm_cb (cbr_word f3 r a b c d e)
      ≡ a * (2 ^ 32 - 2 ^ 8) + b * 2 ^ 6 + c * 2 ^ 5 + d * 2 ^ 3 + e * 2
unfolding c_imm_cb
c_imm_cb-cbr_word f3 r a b c d e h3 hr ha hb hc hd he = omega arith

c_imm_cb-cbr_word_of :
    (f3 r u : ℕ)
    → f3 < 8
    → r < 8
    → u < 2 ^ 32
    → u % 2 ≡ 0
    → (u < 256) ⊎ (2 ^ 32 ≤ u + 256)
    → c_imm_cb (cbr_word_of f3 r u) ≡ u
c_imm_cb-cbr_word_of f3 r u h3 hr hu even signed =
    c_imm_cb-cbr_word f3 r (bit_of u 8) (u / 2 ^ 6 % 4) (bit_of u 5) (u / 2 ^ 3 % 4) (u / 2 ^ 1 % 4)
      h3 hr (omega arith) (omega arith) (omega arith) (omega arith) (omega arith)
    ∙ omega arith

pub cbr_fields :
    (f3 r u : ℕ)
    → f3 < 8
    → r < 8
    → (slice 1 0 (cbr_word_of f3 r u) ≡ 1)
      × (slice 15 13 (cbr_word_of f3 r u) ≡ f3)
      × (slice 9 7 (cbr_word_of f3 r u) ≡ r)
      × (cbr_word_of f3 r u < 2 ^ 16)
cbr_fields f3 r u h hr = (omega arith, omega arith, omega arith, omega arith)

module _ (r u : ℕ) (hr : r < 8) (hu : u < 2 ^ 32) (even : u % 2 ≡ 0)
    (signed : (u < 256) ⊎ (2 ^ 32 ≤ u + 256)) where
  pub decode-c_beqz : decode (cbr_word_of 6 r u) ≡ some (branch_if 0 (8 + r) 0 u)
  unfolding decode decode16
  decode-c_beqz =
      let fields = cbr_fields 6 r u (omega arith) hr in
      rw (fields.0, fields.1, fields.2, c_imm_cb-cbr_word_of 6 r u (omega arith) hr hu even signed)

  pub decode-c_bnez : decode (cbr_word_of 7 r u) ≡ some (branch_if 1 (8 + r) 0 u)
  unfolding decode decode16
  decode-c_bnez =
      let fields = cbr_fields 7 r u (omega arith) hr in
      rw (fields.0, fields.1, fields.2, c_imm_cb-cbr_word_of 7 r u (omega arith) hr hu even signed)
