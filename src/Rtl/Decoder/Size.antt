-- ===== src/Rtl/Decoder/Size.antt =====
-- rtl/core/decoder.sv: is_c_o, which tells the core the size of the word.
use riscv_vibecoded.Isa.Fields.{slice}
use riscv_vibecoded.Isa.Insn.{bytes}
use riscv_vibecoded.Rtl.Decoder.{decoder}
use riscv_vibecoded.Rtl.Decoder.Compressed.{quad0, quad1_alu, quad1, quad2_reg, quad2, decode_c}
use riscv_vibecoded.Rtl.Decoder.Base.{
  register_op, immediate_op, branch_insn, load_insn, store_insn, environment, csr_insn, system_insn,
  decode_base,
}
use riscv_vibecoded.Rtl.Decoder.Base32.{by_value}
use riscv_vibecoded.Prelude.{
  ℕ, true, false, ◌==◌, if◌then◌else◌, ◌≡◌, refl, arith, inl, inr, Bool-cases,
}

quad0_size : (w : ℕ) → (quad0 w).is_c ≡ true
unfolding quad0
quad0_size w = ground arith

quad1_alu_size : (w : ℕ) → (quad1_alu w).is_c ≡ true
unfolding quad1_alu
quad1_alu_size w = ground arith

quad2_reg_size : (w : ℕ) → (quad2_reg w).is_c ≡ true
unfolding quad2_reg
quad2_reg_size w = ground arith

quad1_size : (w : ℕ) → (quad1 w).is_c ≡ true
unfolding quad1
quad1_size w = by_value (slice 15 13 w) 0b100 (λ h. rw h (quad1_alu_size w)) (λ n0. ground arith)

quad2_size : (w : ℕ) → (quad2 w).is_c ≡ true
unfolding quad2
quad2_size w = by_value (slice 15 13 w) 0b100 (λ h. rw h (quad2_reg_size w)) (λ n0. ground arith)

decode_c_size : (w : ℕ) → (decode_c w).is_c ≡ true
unfolding decode_c
decode_c_size w =
    by_value (slice 1 0 w) 0b00 (λ h. rw h (quad0_size w))
      (λ n0.
        by_value (slice 1 0 w) 0b01 (λ h. rw h (quad1_size w))
          (λ n1.
            by_value (slice 1 0 w) 0b10 (λ h. rw h (quad2_size w)) (λ n2. rw (n0, n1, n2) refl)))

register_op_size : (w : ℕ) → (register_op w).is_c ≡ false
unfolding register_op
register_op_size w = ground arith

immediate_op_size : (w : ℕ) → (immediate_op w).is_c ≡ false
unfolding immediate_op
immediate_op_size w = ground arith

branch_insn_size : (w : ℕ) → (branch_insn w).is_c ≡ false
unfolding branch_insn
branch_insn_size w = ground arith

load_insn_size : (w : ℕ) → (load_insn w).is_c ≡ false
unfolding load_insn
load_insn_size w = ground arith

store_insn_size : (w : ℕ) → (store_insn w).is_c ≡ false
unfolding store_insn
store_insn_size w = ground arith

environment_size : (w : ℕ) → (environment w).is_c ≡ false
unfolding environment
environment_size w = ground arith

system_insn_size : (w : ℕ) → (system_insn w).is_c ≡ false
unfolding system_insn csr_insn
system_insn_size w =
    by_value (slice 14 12 w) 0b000 (λ h. rw h (environment_size w)) (λ n0. ground arith)

decode_base_size : (w : ℕ) → (decode_base w).is_c ≡ false
unfolding decode_base
decode_base_size w =
    by_value (slice 6 0 w) 0b0110011 (λ h. rw h (register_op_size w))
      (λ n0.
        by_value (slice 6 0 w) 0b0010011 (λ h. rw h (immediate_op_size w))
          (λ n1.
            by_value (slice 6 0 w) 0b1100011 (λ h. rw h (branch_insn_size w))
              (λ n2.
                by_value (slice 6 0 w) 0b0000011 (λ h. rw h (load_insn_size w))
                  (λ n3.
                    by_value (slice 6 0 w) 0b0100011 (λ h. rw h (store_insn_size w))
                      (λ n4.
                        by_value (slice 6 0 w) 0b1110011 (λ h. rw h (system_insn_size w))
                          (λ n5. rw (n0, n1, n2, n3, n4, n5) (ground arith)))))))

-- Two bytes with is_c_o, four without.
pub decoder-bytes : (w : ℕ) → (if (decoder w).is_c then 2 else 4) ≡ bytes w
unfolding decoder bytes
decoder-bytes w = elim (Bool-cases (slice 1 0 w == 0b11)) [
  | inl h ↦ rw (h, decode_base_size w) refl
  | inr h ↦ rw (h, decode_c_size w) refl
]
