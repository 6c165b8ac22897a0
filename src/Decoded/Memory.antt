-- ===== src/Decoded/Memory.antt =====
-- What the RV32C loads, stores and stack pointer adjustments read back as. Their offsets are
-- unsigned multiples of 4, or for c.addi16sp signed multiples of 16.
use riscv_vibecoded.Isa.Fields.{slice, c_imm_cl, c_imm_lwsp, c_imm_swsp, c_imm_16sp, c_imm_4spn}
use riscv_vibecoded.Isa.Insn.{op_imm, load_from, store_to, decode16, decode}
use riscv_vibecoded.Words.Memory.{cl_word_of, lwsp_word_of}
use riscv_vibecoded.Words.Stack.{swsp_word_of}
use riscv_vibecoded.Words.StackPointer.{addi16sp_word_of, addi4spn_word_of}
use riscv_vibecoded.Prelude.{ℕ, ◌+◌, ◌%◌, ◌^◌, ◌≤◌, ◌<◌, ◌==◌, false, ◌≡◌, ◌⊎◌, some, arith}

module _ (f3 r1 r2 u : ℕ) (h3 : f3 < 8) (h1 : r1 < 8) (h2 : r2 < 8) where
  pub cl_fields :
      (slice 1 0 (cl_word_of f3 r1 u r2) ≡ 0)
      × (slice 15 13 (cl_word_of f3 r1 u r2) ≡ f3)
      × (slice 9 7 (cl_word_of f3 r1 u r2) ≡ r1)
      × (slice 4 2 (cl_word_of f3 r1 u r2) ≡ r2)
      × (cl_word_of f3 r1 u r2 < 2 ^ 16)
  cl_fields = (omega arith, omega arith, omega arith, omega arith, omega arith)

  c_imm_cl_lem : u < 128 → u % 4 ≡ 0 → c_imm_cl (cl_word_of f3 r1 u r2) ≡ u
  unfolding c_imm_cl
  c_imm_cl_lem hu aligned = omega arith

module _ (r1 r2 u : ℕ) (h1 : r1 < 8) (h2 : r2 < 8) (hu : u < 128) (aligned : u % 4 ≡ 0) where
  pub decode-c_lw : decode (cl_word_of 2 r1 u r2) ≡ some (load_from 2 (8 + r1) (8 + r2) u)
  unfolding decode decode16
  decode-c_lw =
      let fields = cl_fields 2 r1 r2 u (omega arith) h1 h2 in
      rw (
        fields.0,
        fields.1,
        fields.2,
        fields.3,
        c_imm_cl_lem 2 r1 r2 u (omega arith) h1 h2 hu aligned,
      )

  pub decode-c_sw : decode (cl_word_of 6 r1 u r2) ≡ some (store_to 2 (8 + r1) (8 + r2) u)
  unfolding decode decode16
  decode-c_sw =
      let fields = cl_fields 6 r1 r2 u (omega arith) h1 h2 in
      rw (
        fields.0,
        fields.1,
        fields.2,
        fields.3,
        c_imm_cl_lem 6 r1 r2 u (omega arith) h1 h2 hu aligned,
      )

module _ (rd u : ℕ) (hd : rd < 32) (hu : u < 256) (aligned : u % 4 ≡ 0) where
  lwsp_fields :
      (slice 1 0 (lwsp_word_of rd u) ≡ 2)
      × (slice 15 13 (lwsp_word_of rd u) ≡ 2)
      × (slice 11 7 (lwsp_word_of rd u) ≡ rd)
  lwsp_fields = (omega arith, omega arith, omega arith)

  c_imm_lwsp_lem : c_imm_lwsp (lwsp_word_of rd u) ≡ u
  unfolding c_imm_lwsp
  c_imm_lwsp_lem = omega arith

  pub decode-c_lwsp : 0 < rd → decode (lwsp_word_of rd u) ≡ some (load_from 2 2 rd u)
  unfolding decode decode16
  decode-c_lwsp nonzero =
      let fields = lwsp_fields in
      let named : (rd == 0) ≡ false = ground arith in
      rw (fields.0, fields.1, fields.2, named, c_imm_lwsp_lem)

  swsp_fields :
      (slice 1 0 (swsp_word_of rd u) ≡ 2)
      × (slice 15 13 (swsp_word_of rd u) ≡ 6)
      × (slice 6 2 (swsp_word_of rd u) ≡ rd)
  swsp_fields = (omega arith, omega arith, omega arith)

  c_imm_swsp_lem : c_imm_swsp (swsp_word_of rd u) ≡ u
  unfolding c_imm_swsp
  c_imm_swsp_lem = omega arith

  pub decode-c_swsp : decode (swsp_word_of rd u) ≡ some (store_to 2 2 rd u)
  unfolding decode decode16
  decode-c_swsp = let fields = swsp_fields in rw (fields.0, fields.1, fields.2, c_imm_swsp_lem)

module _ (u : ℕ) (hu : u < 2 ^ 32) (nonzero : 0 < u) where
  addi16sp_fields :
      (slice 1 0 (addi16sp_word_of u) ≡ 1)
      × (slice 15 13 (addi16sp_word_of u) ≡ 3)
      × (slice 11 7 (addi16sp_word_of u) ≡ 2)
  addi16sp_fields = (omega arith, omega arith, omega arith)

  c_imm_16sp_lem : u % 16 ≡ 0 → (u < 512) ⊎ (2 ^ 32 ≤ u + 512) → c_imm_16sp (addi16sp_word_of u) ≡ u
  unfolding c_imm_16sp
  c_imm_16sp_lem aligned signed = omega arith

  pub decode-c_addi16sp :
      u % 16 ≡ 0
      → (u < 512) ⊎ (2 ^ 32 ≤ u + 512)
      → decode (addi16sp_word_of u) ≡ some (op_imm 0 2 2 u)
  unfolding decode decode16
  decode-c_addi16sp aligned signed =
      let fields = addi16sp_fields in
      let shown : (u == 0) ≡ false = ground arith in
      rw (fields.0, fields.1, fields.2, c_imm_16sp_lem aligned signed, shown)

  addi4spn_fields :
      (r : ℕ)
      → r < 8
      → (slice 1 0 (addi4spn_word_of r u) ≡ 0)
        × (slice 15 13 (addi4spn_word_of r u) ≡ 0)
        × (slice 4 2 (addi4spn_word_of r u) ≡ r)
  addi4spn_fields r hr = (omega arith, omega arith, omega arith)

  c_imm_4spn_lem : (r : ℕ) → r < 8 → u % 4 ≡ 0 → u < 1024 → c_imm_4spn (addi4spn_word_of r u) ≡ u
  unfolding c_imm_4spn
  c_imm_4spn_lem r hr aligned small = omega arith

  pub decode-c_addi4spn :
      (r : ℕ)
      → r < 8
      → u % 4 ≡ 0
      → u < 1024
      → decode (addi4spn_word_of r u) ≡ some (op_imm 0 2 (8 + r) u)
  unfolding decode decode16
  decode-c_addi4spn r hr aligned small =
      let fields = addi4spn_fields r hr in
      let shown : (u == 0) ≡ false = ground arith in
      rw (fields.0, fields.1, c_imm_4spn_lem r hr aligned small, shown, fields.2)
