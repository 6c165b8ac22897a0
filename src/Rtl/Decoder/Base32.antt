-- ===== src/Rtl/Decoder/Base32.antt =====
-- rtl/core/decoder.sv: the bundle of a 32-bit word does what the instruction of the word is.
use riscv_vibecoded.Isa.Insn.{
  op, op_imm, jump_link_reg, branch_if, load_from, store_to, system, decode32,
}
use riscv_vibecoded.Isa.Fields.{slice, imm_i, imm_s, imm_b, imm_shift}
use riscv_vibecoded.Rtl.Decoder.Outputs.{default_bundle, illegal as illegal_bundle}
use riscv_vibecoded.Rtl.Decoder.Base.{
  register_op, m_op, immediate_op, branch_insn, load_insn, store_insn, environment, csr_insn,
  system_insn, decode_base,
}
use riscv_vibecoded.Rtl.Decoder.Action.{
  bundle_action, insn_action, operation, immediate_operation, csr_action, environment_action,
  Performs,
}
use riscv_vibecoded.Prelude.{
  ℕ, true, false, ◌==◌, if◌then◌else◌, none, some, ◌≡◌, refl, arith, inl, inr, Bool-cases,
}

register_op_performs :
    (w : ℕ)
    → bundle_action (register_op w)
      ≡ insn_action
          (op (slice 31 25 w) (slice 14 12 w) (slice 19 15 w) (slice 24 20 w) (slice 11 7 w))
unfolding bundle_action insn_action operation register_op m_op
register_op_performs w = ground arith

immediate_op_performs :
    (w : ℕ)
    → bundle_action (immediate_op w)
      ≡ insn_action (op_imm (slice 14 12 w) (slice 19 15 w) (slice 11 7 w) (imm_i w))
unfolding bundle_action insn_action immediate_operation operation immediate_op imm_i imm_shift
immediate_op_performs w = ground arith

branch_performs :
    (w : ℕ)
    → bundle_action (branch_insn w)
      ≡ insn_action (branch_if (slice 14 12 w) (slice 19 15 w) (slice 24 20 w) (imm_b w))
unfolding bundle_action insn_action branch_insn
branch_performs w = ground arith

load_performs :
    (w : ℕ)
    → bundle_action (load_insn w)
      ≡ insn_action (load_from (slice 14 12 w) (slice 19 15 w) (slice 11 7 w) (imm_i w))
unfolding bundle_action insn_action load_insn
load_performs w = ground arith

store_performs :
    (w : ℕ)
    → bundle_action (store_insn w)
      ≡ insn_action (store_to (slice 14 12 w) (slice 19 15 w) (slice 24 20 w) (imm_s w))
unfolding bundle_action insn_action store_insn
store_performs w = ground arith

environment_performs : (w : ℕ) → bundle_action (environment w) ≡ environment_action (slice 31 20 w)
unfolding bundle_action environment_action environment
environment_performs w = ground arith

csr_performs :
    (w : ℕ)
    → (slice 14 12 w == 0) ≡ false
    → (slice 14 12 w == 4) ≡ false
    → bundle_action (csr_insn w)
      ≡ csr_action (slice 14 12 w) (slice 31 20 w) (slice 19 15 w) (slice 11 7 w)
unfolding bundle_action csr_action csr_insn
csr_performs w h0 h4 = ground arith

reserved :
    (w : ℕ)
    → (slice 14 12 w == 4) ≡ true
    → bundle_action (illegal_bundle (default_bundle w))
      ≡ csr_action (slice 14 12 w) (slice 31 20 w) (slice 19 15 w) (slice 11 7 w)
unfolding bundle_action csr_action
reserved w e = rw e refl

system_performs :
    (w : ℕ)
    → bundle_action (system_insn w)
      ≡ insn_action (system (slice 14 12 w) (slice 31 20 w) (slice 19 15 w) (slice 11 7 w))
unfolding insn_action system_insn
system_performs w = elim (Bool-cases (slice 14 12 w == 0)) [
  | inl h ↦ rw h (environment_performs w)
  | inr h ↦ elim (Bool-cases (slice 14 12 w == 4)) [
    | inl e ↦ rw (h, e) (reserved w e)
    | inr e ↦ rw (h, e) (csr_performs w h e)
  ]
]

-- A value that one function of the word handles.
pub by_value : {P : Type 0} (a n : ℕ) → (a ≡ n → P) → ((a == n) ≡ false → P) → P
by_value a n same other = elim (Bool-cases (a == n)) [
  | inl h ↦ same (ground arith)
  | inr h ↦ other h
]

jump_register-Performs :
    (w : ℕ)
    → Performs
        (if slice 14 12 w == 0
          then some (jump_link_reg (slice 19 15 w) (slice 11 7 w) (imm_i w))
          else none)
        (if slice 14 12 w == 0
          then record (default_bundle w) { rd_we = true; is_jalr = true; imm = imm_i w }
          else illegal_bundle (default_bundle w))
unfolding bundle_action insn_action
jump_register-Performs w = elim (Bool-cases (slice 14 12 w == 0)) [
  | inl h ↦ rw h refl
  | inr h ↦ rw h tt
]

pub decode_base-Performs : (w : ℕ) → Performs (decode32 w) (decode_base w)
unfolding decode32 decode_base bundle_action insn_action
decode_base-Performs w =
    by_value (slice 6 0 w) 0b0110011 (λ h. rw h (register_op_performs w))
      (λ n0.
        by_value (slice 6 0 w) 0b0010011 (λ h. rw h (immediate_op_performs w))
          (λ n1.
            by_value (slice 6 0 w) 0b0110111 (λ h. rw h refl)
              (λ n2.
                by_value (slice 6 0 w) 0b0010111 (λ h. rw h refl)
                  (λ n3.
                    by_value (slice 6 0 w) 0b1101111 (λ h. rw h refl)
                      (λ n4.
                        by_value (slice 6 0 w) 0b1100111 (λ h. rw h (jump_register-Performs w))
                          (λ n5.
                            by_value (slice 6 0 w) 0b1100011 (λ h. rw h (branch_performs w))
                              (λ n6.
                                by_value (slice 6 0 w) 0b0000011 (λ h. rw h (load_performs w))
                                  (λ n7.
                                    by_value (slice 6 0 w) 0b0100011 (λ h. rw h (store_performs w))
                                      (λ n8.
                                        by_value (slice 6 0 w) 0b0001111 (λ h. rw h refl)
                                          (λ n9.
                                            by_value (slice 6 0 w) 0b1110011
                                              (λ h. rw h (system_performs w))
                                              (λ n10.
                                                rw (n0, n1, n2, n3, n4, n5, n6, n7, n8, n9, n10)
                                                  tt)))))))))))
