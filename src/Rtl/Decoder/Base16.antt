-- ===== src/Rtl/Decoder/Base16.antt =====
-- rtl/core/decoder.sv: the bundle of a 16-bit word does what the instruction of the word is.
use riscv_vibecoded.Isa.Insn.{
  decode, decode16, decode_quad0, decode_quad1, decode_quad1_alu, decode_quad2, decode_quad2_reg,
  unless_zero,
}
use riscv_vibecoded.Isa.Fields.{slice, c_shamt}
use riscv_vibecoded.Rtl.Decoder.{decoder}
use riscv_vibecoded.Rtl.Decoder.Base32.{by_value, decode_base-Performs}
use riscv_vibecoded.Rtl.Decoder.Compressed.{decode_c, quad0, quad1, quad1_alu, quad2, quad2_reg}
use riscv_vibecoded.Rtl.Decoder.Action.{
  bundle_action, insn_action, operation, immediate_operation, environment_action, Performs,
}
use riscv_vibecoded.Prelude.{ℕ, ◌==◌, ◌≡◌, arith, inl, inr, Bool-cases}

quad0-Performs : (w : ℕ) → Performs (decode_quad0 w) (quad0 w)
unfolding decode_quad0 quad0 unless_zero bundle_action insn_action immediate_operation operation
quad0-Performs w = ground arith

quad1_alu-Performs : (w : ℕ) → Performs (decode_quad1_alu w) (quad1_alu w)
unfolding decode_quad1_alu quad1_alu bundle_action insn_action immediate_operation operation c_shamt
quad1_alu-Performs w = ground arith

quad2_reg-Performs : (w : ℕ) → slice 15 13 w ≡ 4 → Performs (decode_quad2_reg w) (quad2_reg w)
unfolding decode_quad2_reg quad2_reg unless_zero bundle_action insn_action environment_action
    operation
quad2_reg-Performs w h = ground arith

quad1-Performs : (w : ℕ) → Performs (decode_quad1 w) (quad1 w)
unfolding decode_quad1 quad1 unless_zero bundle_action insn_action immediate_operation operation
quad1-Performs w =
    by_value (slice 15 13 w) 0b100 (λ h. rw h (quad1_alu-Performs w)) (λ n. ground arith)

quad2-Performs : (w : ℕ) → Performs (decode_quad2 w) (quad2 w)
unfolding decode_quad2 quad2 unless_zero bundle_action insn_action immediate_operation operation
    c_shamt
quad2-Performs w =
    by_value (slice 15 13 w) 0b100 (λ h. rw h (quad2_reg-Performs w h)) (λ n. ground arith)

pub decode_c-Performs : (w : ℕ) → Performs (decode16 w) (decode_c w)
unfolding decode16 decode_c
decode_c-Performs w =
    by_value (slice 1 0 w) 0b00 (λ h. rw h (quad0-Performs w))
      (λ n0.
        by_value (slice 1 0 w) 0b01 (λ h. rw h (quad1-Performs w))
          (λ n1.
            by_value (slice 1 0 w) 0b10 (λ h. rw h (quad2-Performs w)) (λ n2. rw (n0, n1, n2) tt)))

-- For every word that stands for an instruction, of 16 bits or of 32, the control bundle of the
-- decoder is that of the instruction: the operation, operands, immediate, register and class, or an
-- illegal instruction where its funct3 and funct7 select none.
pub decoder-Performs : (w : ℕ) → Performs (decode w) (decoder w)
unfolding decode decoder
decoder-Performs w = elim (Bool-cases (slice 1 0 w == 0b11)) [
  | inl h ↦ rw h (decode_base-Performs w)
  | inr h ↦ rw h (decode_c-Performs w)
]
