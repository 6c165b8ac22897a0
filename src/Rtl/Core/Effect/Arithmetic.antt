-- ===== src/Rtl/Core/Effect/Arithmetic.antt =====
-- The operations, comparisons and targets of Isa.Execute, against those of rtl/core/alu.sv and
-- rtl/core/rv32i_core.sv on the same words.
use riscv_vibecoded.Bits.{bit_and_mask, bit_and_shifted}
use riscv_vibecoded.Isa.Fields.{slice}
use riscv_vibecoded.Isa.Execute.{alu, alu_imm, condition, covered}
use riscv_vibecoded.Rtl.Pkg.{AluOp, complement}
use riscv_vibecoded.Rtl.Alu
use riscv_vibecoded.Rtl.Decoder.Action.{operation, immediate_operation, immediate_value}
use riscv_vibecoded.Rtl.Decoder.Base32.{by_value}
use riscv_vibecoded.Py.Int.{ℤ, pos, negsuc, ◌+ℤ◌, ◌-ℤ◌, ◌&ℤ◌, ◌|ℤ◌, ◌^ℤ◌, ◌<<ℤ◌, ◌>>ℤ◌, ◌%ℤ◌}
use riscv_vibecoded.Py.Int.Mask.{low32}
use riscv_vibecoded.Py.Error.{ok}
use riscv_vibecoded.Prelude.{
  ℕ, ◌+◌, ◌-◌, ◌*◌, ◌/◌, ◌%◌, ◌^◌, ◌<◌, ltb, bit_and, Bool, true, false, ◌==◌, ◌||◌, Option, none,
  some, Bool-cases, inl, inr, ==_iff, subst, ◌≡◌, refl, sym, ap, ◌∙◌, arith,
}

abbrev pub AluAgrees : Option ℤ → Option AluOp → ℕ → ℕ → Type 0
AluAgrees none o a b = Unit
AluAgrees (some v) none a b = Unit
AluAgrees (some v) (some o) a b = v ≡ pos (Alu.result o a b)

alu-AluAgrees :
    (funct7 funct3 a b : ℕ)
    → a < 2 ^ 32
    → b < 2 ^ 32
    → AluAgrees (alu funct7 funct3 (pos a) (pos b)) (operation funct7 funct3) a b
unfolding alu operation Alu.result ◌+ℤ◌ ◌-ℤ◌ ◌&ℤ◌ ◌|ℤ◌ ◌^ℤ◌ ◌%ℤ◌
alu-AluAgrees funct7 funct3 a b ha hb =
    by_value funct7 0x20
      (λ h. by_value funct3 0 (λ k. rw (h, k) (ground arith)) (λ n. rw (h, n) tt))
      (λ n0.
        by_value funct7 0
          (λ h.
            by_value funct3 0 (λ k. rw (h, k) (ground arith))
              (λ n1.
                by_value funct3 4 (λ k. rw (h, k) refl)
                  (λ n2.
                    by_value funct3 6 (λ k. rw (h, k) refl)
                      (λ n3.
                        by_value funct3 7 (λ k. rw (h, k) refl)
                          (λ n4. rw (h, n1, n2, n3, n4) tt)))))
          (λ n1. rw (n0, n1) tt))

sll-AluAgrees :
    (a imm : ℕ)
    → (slice 11 5 imm ≡ 0 → imm < 32)
    → AluAgrees (alu_imm 1 (pos a) imm) (immediate_operation 1 imm) a (immediate_value 1 imm)
unfolding alu_imm immediate_operation Alu.result ◌<<ℤ◌ ◌%ℤ◌
sll-AluAgrees a imm short = elim (Bool-cases (slice 11 5 imm == 0)) [
  | inl e ↦
      let amount : slice 4 0 imm ≡ imm = omega (arith, short ((==_iff (slice 11 5 imm) 0).0 e)) in
      rw e (ap (λ (t : ℕ). pos (a * 2 ^ t % 2 ^ 32)) (sym (ap (slice 4 0) amount ∙ amount)))
  | inr e ↦ rw e tt
]

srl-AluAgrees :
    (a imm : ℕ)
    → AluAgrees (alu_imm 5 (pos a) imm) (immediate_operation 5 imm) a (immediate_value 5 imm)
unfolding alu_imm immediate_operation Alu.result ◌>>ℤ◌
srl-AluAgrees a imm = elim (Bool-cases (ltb imm 32)) [
  | inl e ↦
      let amount : slice 4 0 imm ≡ imm = ground arith in
      let logical : (slice 11 5 imm == 0) ≡ true = ground arith in
      rw (e, logical) (ap (λ (t : ℕ). pos (a / 2 ^ t)) (sym (ap (slice 4 0) amount ∙ amount)))
  | inr e ↦ rw e tt
]

alu_imm-AluAgrees :
    (funct3 a imm : ℕ)
    → a < 2 ^ 32
    → imm < 2 ^ 32
    → (funct3 ≡ 1 → slice 11 5 imm ≡ 0 → imm < 32)
    → AluAgrees
        (alu_imm funct3 (pos a) imm)
        (immediate_operation funct3 imm)
        a
        (immediate_value funct3 imm)
unfolding alu_imm immediate_operation Alu.result ◌<<ℤ◌ ◌>>ℤ◌ ◌%ℤ◌
alu_imm-AluAgrees funct3 a imm ha hi short =
    by_value funct3 1 (λ h. rw h (sll-AluAgrees a imm (short h)))
      (λ n0.
        by_value funct3 5 (λ h. rw h (srl-AluAgrees a imm))
          (λ n1. rw (n0, n1) (alu-AluAgrees 0 funct3 a imm ha hi)))

-- The target of a jump to a register, without its lowest bit.
pub even_target : (a : ℕ) → a < 2 ^ 32 → a - bit_and a 1 ≡ bit_and a (complement 1)
even_target a h =
    omega (arith, bit_and_mask 1 a, bit_and_shifted 1 (2 ^ 31 - 1) a, bit_and_mask 31 (a / 2))

condition-branch_taken :
    (funct3 a b : ℕ) (taken : Bool)
    → covered (condition funct3 (pos a) (pos b)) ≡ ok taken
    → ((funct3 == 2) || (funct3 == 3) ≡ false) × (taken ≡ Alu.branch_taken funct3 a b)
unfolding condition Alu.branch_taken
condition-branch_taken funct3 a b taken h = ground arith

pub alu_of :
    (funct7 funct3 : ℕ) (x y : ℤ) (a b : ℕ)
    → x ≡ pos a
    → y ≡ pos b
    → a < 2 ^ 32
    → b < 2 ^ 32
    → AluAgrees (alu funct7 funct3 x y) (operation funct7 funct3) a b
alu_of funct7 funct3 x y a b hx hy ha hb = rw (hx, hy) (alu-AluAgrees funct7 funct3 a b ha hb)

pub alu_imm_of :
    (funct3 : ℕ) (x : ℤ) (a imm : ℕ)
    → x ≡ pos a
    → a < 2 ^ 32
    → imm < 2 ^ 32
    → (funct3 ≡ 1 → slice 11 5 imm ≡ 0 → imm < 32)
    → AluAgrees
        (alu_imm funct3 x imm)
        (immediate_operation funct3 imm)
        a
        (immediate_value funct3 imm)
alu_imm_of funct3 x a imm hx ha hi short = rw hx (alu_imm-AluAgrees funct3 a imm ha hi short)

pub immediate-lt : (funct3 imm : ℕ) → imm < 2 ^ 32 → immediate_value funct3 imm < 2 ^ 32
immediate-lt funct3 imm h = ground arith

sum_low32 : (a b : ℕ) → low32 (pos a +ℤ pos b) ≡ (a + b) % 2 ^ 32
unfolding ◌+ℤ◌ ◌%ℤ◌
sum_low32 a b = ground arith

pub register_target :
    (x : ℤ) (a imm : ℕ)
    → x ≡ pos a
    → pos (low32 (x +ℤ pos imm)) &ℤ negsuc 1 ≡ pos (bit_and ((a + imm) % 2 ^ 32) (complement 1))
unfolding ◌&ℤ◌
register_target x a imm h = rw h (
    ap (λ (t : ℕ). pos t &ℤ negsuc 1) (sum_low32 a imm)
    ∙ ap pos (even_target ((a + imm) % 2 ^ 32) (omega arith)))

pub condition_of :
    (funct3 : ℕ) (x y : ℤ) (a b : ℕ) (taken : Bool)
    → x ≡ pos a
    → y ≡ pos b
    → covered (condition funct3 x y) ≡ ok taken
    → ((funct3 == 2) || (funct3 == 3) ≡ false) × (taken ≡ Alu.branch_taken funct3 a b)
condition_of funct3 x y a b taken hx hy h = condition-branch_taken funct3 a b taken (
    subst (λ (t : ℤ). covered (condition funct3 (pos a) t) ≡ ok taken) hy
      (subst (λ (t : ℤ). covered (condition funct3 t y) ≡ ok taken) hx h))
