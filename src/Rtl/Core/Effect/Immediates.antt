-- ===== src/Rtl/Core/Effect/Immediates.antt =====
-- The immediates of the instructions that words of 16 and 32 bits stand for.
use riscv_vibecoded.Isa.Insn.{
  Insn, op_imm, load_upper, decode, decode16, decode32, decode_quad0, decode_quad1,
  decode_quad1_alu, decode_quad2, decode_quad2_reg, unless_zero,
}
use riscv_vibecoded.Isa.Fields.{slice, imm_i, c_shamt}
use riscv_vibecoded.Rtl.Decoder.Base32.{by_value}
use riscv_vibecoded.Rtl.Decoder.Immediates.{
  imm_i-lt, imm_u-lt, c_imm_sext6-lt, c_imm_16sp-lt, c_imm_4spn-lt, c_imm_lui-lt,
}
use riscv_vibecoded.Prelude.{
  ℕ, ◌^◌, ◌<◌, ◌==◌, Option, none, some, ◌≡◌, arith, inl, inr, Bool-cases, subst,
}

-- The immediates of an instruction fit their words, and a shift that is not by a funct7 is below 32.
abbrev pub HasWords : Insn → Type 0
HasWords (op_imm funct3 rs1 rd imm) = (imm < 2 ^ 32) × (funct3 ≡ 1 → slice 11 5 imm ≡ 0 → imm < 32)
HasWords (load_upper rd imm) = imm < 2 ^ 32
HasWords _ = Unit

abbrev AnyHasWords : Option Insn → Type 0
AnyHasWords none = Unit
AnyHasWords (some i) = HasWords i

imm_i-shift : (w : ℕ) → slice 11 5 (imm_i w) ≡ 0 → imm_i w < 32
unfolding imm_i
imm_i-shift w h = omega arith

quad0-HasWords : (w : ℕ) → AnyHasWords (decode_quad0 w)
unfolding decode_quad0 unless_zero
quad0-HasWords w = ground (arith, c_imm_4spn-lt w)

quad1_alu-HasWords : (w : ℕ) → AnyHasWords (decode_quad1_alu w)
unfolding decode_quad1_alu c_shamt
quad1_alu-HasWords w = ground (arith, c_imm_sext6-lt w)

quad1-HasWords : (w : ℕ) → AnyHasWords (decode_quad1 w)
unfolding decode_quad1 unless_zero
quad1-HasWords w =
    by_value (slice 15 13 w) 0b100 (λ h. rw h (quad1_alu-HasWords w))
      (λ n. ground (arith, c_imm_sext6-lt w, c_imm_16sp-lt w, c_imm_lui-lt w))

quad2-HasWords : (w : ℕ) → AnyHasWords (decode_quad2 w)
unfolding decode_quad2 decode_quad2_reg unless_zero c_shamt
quad2-HasWords w = ground arith

decode16-HasWords : (w : ℕ) → AnyHasWords (decode16 w)
unfolding decode16
decode16-HasWords w =
    by_value (slice 1 0 w) 0b00 (λ h. rw h (quad0-HasWords w))
      (λ n0.
        by_value (slice 1 0 w) 0b01 (λ h. rw h (quad1-HasWords w))
          (λ n1.
            by_value (slice 1 0 w) 0b10 (λ h. rw h (quad2-HasWords w)) (λ n2. rw (n0, n1, n2) tt)))

decode32-HasWords : (w : ℕ) → AnyHasWords (decode32 w)
unfolding decode32
decode32-HasWords w = ground (arith, imm_i-lt w, imm_i-shift w, imm_u-lt w)

any-HasWords : (w : ℕ) → AnyHasWords (decode w)
unfolding decode
any-HasWords w = elim (Bool-cases (slice 1 0 w == 0b11)) [
  | inl h ↦ rw h (decode32-HasWords w)
  | inr h ↦ rw h (decode16-HasWords w)
]

pub decode-HasWords : (w : ℕ) (i : Insn) → decode w ≡ some i → HasWords i
decode-HasWords w i h = subst AnyHasWords h (any-HasWords w)
