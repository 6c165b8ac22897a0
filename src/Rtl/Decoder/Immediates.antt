-- ===== src/Rtl/Decoder/Immediates.antt =====
-- rtl/core/decoder.sv: every immediate is a 32-bit word.
use riscv_vibecoded.Isa.Fields.{
  slice, imm_i, imm_s, imm_b, imm_j, imm_u, imm_shift, c_imm_sext6, c_imm_lui, c_imm_16sp,
  c_imm_4spn, c_imm_cl, c_imm_lwsp, c_imm_swsp, c_imm_cb, c_imm_cj, c_shamt,
}
use riscv_vibecoded.Rtl.Decoder.{decoder}
use riscv_vibecoded.Rtl.Decoder.Outputs.{Bundle}
use riscv_vibecoded.Rtl.Decoder.Compressed.{quad0, quad1_alu, quad1, quad2_reg, quad2, decode_c}
use riscv_vibecoded.Rtl.Decoder.Base.{
  register_op, immediate_op, branch_insn, load_insn, store_insn, environment, csr_insn, system_insn,
  decode_base,
}
use riscv_vibecoded.Rtl.Decoder.Base32.{by_value}
use riscv_vibecoded.Prelude.{ℕ, ◌^◌, ◌<◌, ◌==◌, arith, inl, inr, Bool-cases}

pub imm_i-lt : (w : ℕ) → imm_i w < 2 ^ 32
unfolding imm_i
imm_i-lt w = omega arith

imm_s-lt : (w : ℕ) → imm_s w < 2 ^ 32
unfolding imm_s
imm_s-lt w = omega arith

imm_b-lt : (w : ℕ) → imm_b w < 2 ^ 32
unfolding imm_b
imm_b-lt w = omega arith

imm_j-lt : (w : ℕ) → imm_j w < 2 ^ 32
unfolding imm_j
imm_j-lt w = omega arith

pub imm_u-lt : (w : ℕ) → imm_u w < 2 ^ 32
unfolding imm_u
imm_u-lt w = omega arith

imm_shift-lt : (w : ℕ) → imm_shift w < 2 ^ 32
unfolding imm_shift
imm_shift-lt w = omega arith

pub c_imm_sext6-lt : (w : ℕ) → c_imm_sext6 w < 2 ^ 32
unfolding c_imm_sext6
c_imm_sext6-lt w = omega arith

pub c_imm_16sp-lt : (w : ℕ) → c_imm_16sp w < 2 ^ 32
unfolding c_imm_16sp
c_imm_16sp-lt w = omega arith

pub c_imm_4spn-lt : (w : ℕ) → c_imm_4spn w < 2 ^ 32
unfolding c_imm_4spn
c_imm_4spn-lt w = omega arith

pub c_imm_lui-lt : (w : ℕ) → c_imm_lui w < 2 ^ 32
unfolding c_imm_lui
c_imm_lui-lt w = omega arith

c_imm_cl-lt : (w : ℕ) → c_imm_cl w < 2 ^ 32
unfolding c_imm_cl
c_imm_cl-lt w = omega arith

c_imm_lwsp-lt : (w : ℕ) → c_imm_lwsp w < 2 ^ 32
unfolding c_imm_lwsp
c_imm_lwsp-lt w = omega arith

c_imm_swsp-lt : (w : ℕ) → c_imm_swsp w < 2 ^ 32
unfolding c_imm_swsp
c_imm_swsp-lt w = omega arith

c_imm_cb-lt : (w : ℕ) → c_imm_cb w < 2 ^ 32
unfolding c_imm_cb
c_imm_cb-lt w = omega arith

c_imm_cj-lt : (w : ℕ) → c_imm_cj w < 2 ^ 32
unfolding c_imm_cj
c_imm_cj-lt w = omega arith

c_shamt-lt : (w : ℕ) → c_shamt w < 2 ^ 32
unfolding c_shamt
c_shamt-lt w = omega arith

abbrev HasWord : Bundle → Type 0
HasWord d = d.imm < 2 ^ 32

quad0-HasWord : (w : ℕ) → HasWord (quad0 w)
unfolding quad0
quad0-HasWord w = ground (arith, c_imm_4spn-lt w, c_imm_cl-lt w)

quad1_alu-HasWord : (w : ℕ) → HasWord (quad1_alu w)
unfolding quad1_alu
quad1_alu-HasWord w = ground (arith, c_shamt-lt w, c_imm_sext6-lt w)

quad1-HasWord : (w : ℕ) → HasWord (quad1 w)
unfolding quad1
quad1-HasWord w =
    by_value (slice 15 13 w) 0b100 (λ h. rw h (quad1_alu-HasWord w))
      (λ n.
        ground
          (arith, c_imm_sext6-lt w, c_imm_16sp-lt w, c_imm_lui-lt w, c_imm_cj-lt w, c_imm_cb-lt w))

quad2-HasWord : (w : ℕ) → HasWord (quad2 w)
unfolding quad2 quad2_reg
quad2-HasWord w = ground (arith, c_shamt-lt w, c_imm_lwsp-lt w, c_imm_swsp-lt w)

decode_c-HasWord : (w : ℕ) → HasWord (decode_c w)
unfolding decode_c
decode_c-HasWord w =
    by_value (slice 1 0 w) 0b00 (λ h. rw h (quad0-HasWord w))
      (λ n0.
        by_value (slice 1 0 w) 0b01 (λ h. rw h (quad1-HasWord w))
          (λ n1.
            by_value (slice 1 0 w) 0b10 (λ h. rw h (quad2-HasWord w))
              (λ n2. rw (n0, n1, n2) (omega arith))))

register_op-HasWord : (w : ℕ) → HasWord (register_op w)
unfolding register_op
register_op-HasWord w = ground arith

immediate_op-HasWord : (w : ℕ) → HasWord (immediate_op w)
unfolding immediate_op
immediate_op-HasWord w = ground (arith, imm_i-lt w, imm_shift-lt w)

system_insn-HasWord : (w : ℕ) → HasWord (system_insn w)
unfolding system_insn environment csr_insn
system_insn-HasWord w = ground arith

decode_base-HasWord : (w : ℕ) → HasWord (decode_base w)
unfolding decode_base branch_insn load_insn store_insn
decode_base-HasWord w =
    by_value (slice 6 0 w) 0b0110011 (λ h. rw h (register_op-HasWord w))
      (λ n0.
        by_value (slice 6 0 w) 0b0010011 (λ h. rw h (immediate_op-HasWord w))
          (λ n1.
            by_value (slice 6 0 w) 0b1110011 (λ h. rw h (system_insn-HasWord w))
              (λ n2.
                rw (n0, n1, n2)
                  (ground (arith, imm_i-lt w, imm_s-lt w, imm_b-lt w, imm_j-lt w, imm_u-lt w)))))

pub decoder-imm-lt : (w : ℕ) → (decoder w).imm < 2 ^ 32
unfolding decoder
decoder-imm-lt w = elim (Bool-cases (slice 1 0 w == 0b11)) [
  | inl h ↦ rw h (decode_base-HasWord w)
  | inr h ↦ rw h (decode_c-HasWord w)
]
