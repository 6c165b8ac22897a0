-- ===== src/Rtl/Decoder/Classes.antt =====
-- rtl/core/decoder.sv: at most one class of instruction is flagged, and what an illegal one is.
use riscv_vibecoded.Rtl.Pkg.{one_bit}
use riscv_vibecoded.Rtl.Decoder.{decoder}
use riscv_vibecoded.Rtl.Decoder.Outputs.{Bundle}
use riscv_vibecoded.Rtl.Decoder.Compressed.{quad0, quad1_alu, quad1, quad2_reg, quad2, decode_c}
use riscv_vibecoded.Rtl.Decoder.Base.{
  register_op, immediate_op, branch_insn, load_insn, store_insn, environment, csr_insn, system_insn,
  decode_base,
}
use riscv_vibecoded.Isa.Fields.{slice}
use riscv_vibecoded.Prelude.{
  ℕ, ◌+◌, ◌==◌, ◌&&◌, ◌||◌, not, leb, Bool, true, false, ◌≡◌, refl, sym, subst, arith, Bool-cases,
  inl, inr,
}

-- The flags that are set, without is_illegal_o.
abbrev pub classes : Bundle → ℕ
classes d =
    one_bit d.is_branch
    + one_bit d.is_jal
    + one_bit d.is_jalr
    + one_bit d.is_load
    + one_bit d.is_store
    + one_bit d.is_nop
    + one_bit d.is_csr
    + one_bit d.is_ecall
    + one_bit d.is_ebreak
    + one_bit d.is_mret

-- The accesses that have an alignment: lh, lw, lhu, sh and sw.
abbrev pub is_aligned_access : (load : Bool) (funct3 : ℕ) → Bool
is_aligned_access load funct3 = funct3 == 1 || funct3 == 2 || (load && funct3 == 5)

-- At most one class; an illegal bundle writes no register and has no class but those of the memory;
-- a no-op, a branch and a store write no register.
abbrev pub is_sound : Bundle → Bool
is_sound d =
    leb (classes d) 1
    && (not d.is_illegal || (not d.rd_we && classes d == one_bit d.is_load + one_bit d.is_store))
    && (not (d.is_nop || d.is_branch || d.is_store) || not d.rd_we)

abbrev pub IsSound : Bundle → Type 0
IsSound d = is_sound d ≡ true

-- Nor do ecall, ebreak and mret; an illegal load or store is none that has an alignment.
abbrev pub is_quiet : Bundle → Bool
is_quiet d =
    (not (d.is_ecall || d.is_ebreak || d.is_mret) || not d.rd_we)
    && not (d.is_illegal && (d.is_load || d.is_store) && is_aligned_access d.is_load d.lsu_funct3)

abbrev pub IsQuiet : Bundle → Type 0
IsQuiet d = is_quiet d ≡ true

abbrev pub IsConsistent : Bundle → Type 0
IsConsistent d = (is_sound d && is_quiet d) ≡ true

-- Where a equals n the bundle is that of a function of its own.
delegate :
    (a n : ℕ) (d e : Bundle)
    → (a ≡ n → d ≡ e)
    → IsConsistent e
    → ((a == n) ≡ false → IsConsistent d)
    → IsConsistent d
delegate a n d e same sound other = elim (Bool-cases (a == n)) [
  | inl h ↦ subst IsConsistent (sym (same (ground arith))) sound
  | inr h ↦ other h
]

quad0-IsConsistent : (w : ℕ) → IsConsistent (quad0 w)
unfolding quad0
quad0-IsConsistent w = ground arith

quad1_alu-IsConsistent : (w : ℕ) → IsConsistent (quad1_alu w)
unfolding quad1_alu
quad1_alu-IsConsistent w = ground arith

quad1-IsConsistent : (w : ℕ) → IsConsistent (quad1 w)
unfolding quad1
quad1-IsConsistent w =
    delegate (slice 15 13 w) 0b100 (quad1 w) (quad1_alu w) (λ h. rw h refl)
      (quad1_alu-IsConsistent w) (λ n0. ground arith)

quad2_reg-IsConsistent : (w : ℕ) → IsConsistent (quad2_reg w)
unfolding quad2_reg
quad2_reg-IsConsistent w = ground arith

quad2-IsConsistent : (w : ℕ) → IsConsistent (quad2 w)
unfolding quad2
quad2-IsConsistent w =
    delegate (slice 15 13 w) 0b100 (quad2 w) (quad2_reg w) (λ h. rw h refl)
      (quad2_reg-IsConsistent w) (λ n0. ground arith)

decode_c-IsConsistent : (w : ℕ) → IsConsistent (decode_c w)
unfolding decode_c
decode_c-IsConsistent w =
    delegate (slice 1 0 w) 0b00 (decode_c w) (quad0 w) (λ h. rw h refl) (quad0-IsConsistent w)
      (λ n0.
        delegate (slice 1 0 w) 0b01 (decode_c w) (quad1 w) (λ h. rw h refl) (quad1-IsConsistent w)
          (λ n1.
            delegate (slice 1 0 w) 0b10 (decode_c w) (quad2 w) (λ h. rw h refl)
              (quad2-IsConsistent w) (λ n2. rw (n0, n1, n2) refl)))

register_op-IsConsistent : (w : ℕ) → IsConsistent (register_op w)
unfolding register_op
register_op-IsConsistent w = ground arith

immediate_op-IsConsistent : (w : ℕ) → IsConsistent (immediate_op w)
unfolding immediate_op
immediate_op-IsConsistent w = ground arith

branch_insn-IsConsistent : (w : ℕ) → IsConsistent (branch_insn w)
unfolding branch_insn
branch_insn-IsConsistent w = ground arith

load_insn-IsConsistent : (w : ℕ) → IsConsistent (load_insn w)
unfolding load_insn
load_insn-IsConsistent w = ground arith

store_insn-IsConsistent : (w : ℕ) → IsConsistent (store_insn w)
unfolding store_insn
store_insn-IsConsistent w = ground arith

environment-IsConsistent : (w : ℕ) → IsConsistent (environment w)
unfolding environment
environment-IsConsistent w = ground arith

system_insn-IsConsistent : (w : ℕ) → IsConsistent (system_insn w)
unfolding system_insn csr_insn
system_insn-IsConsistent w =
    delegate (slice 14 12 w) 0b000 (system_insn w) (environment w) (λ h. rw h refl)
      (environment-IsConsistent w) (λ n0. ground arith)

decode_base-IsConsistent : (w : ℕ) → IsConsistent (decode_base w)
unfolding decode_base
decode_base-IsConsistent w =
    delegate (slice 6 0 w) 0b0110011 (decode_base w) (register_op w) (λ h. rw h refl)
      (register_op-IsConsistent w)
      (λ n0.
        delegate (slice 6 0 w) 0b0010011 (decode_base w) (immediate_op w) (λ h. rw h refl)
          (immediate_op-IsConsistent w)
          (λ n1.
            delegate (slice 6 0 w) 0b1100011 (decode_base w) (branch_insn w) (λ h. rw h refl)
              (branch_insn-IsConsistent w)
              (λ n2.
                delegate (slice 6 0 w) 0b0000011 (decode_base w) (load_insn w) (λ h. rw h refl)
                  (load_insn-IsConsistent w)
                  (λ n3.
                    delegate (slice 6 0 w) 0b0100011 (decode_base w) (store_insn w) (λ h. rw h refl)
                      (store_insn-IsConsistent w)
                      (λ n4.
                        delegate (slice 6 0 w) 0b1110011 (decode_base w) (system_insn w)
                          (λ h. rw h refl) (system_insn-IsConsistent w)
                          (λ n5. rw (n0, n1, n2, n3, n4, n5) (ground arith)))))))

-- For every word: at most one of branch, jal, jalr, load, store, no-op, CSR access, ecall, ebreak
-- and mret is flagged; an illegal word enables no register write and is flagged as nothing else
-- but a load or a store, and then not one that has an alignment; a no-op, a branch, a store, ecall,
-- ebreak and mret enable no register write.
pub decoder-IsConsistent : (w : ℕ) → IsConsistent (decoder w)
unfolding decoder
decoder-IsConsistent w = elim (Bool-cases (slice 1 0 w == 0b11)) [
  | inl h ↦ rw h (decode_base-IsConsistent w)
  | inr h ↦ rw h (decode_c-IsConsistent w)
]

both : (a b : Bool) → (a && b) ≡ true → (a ≡ true) × (b ≡ true)
both true b h = (refl, h)
both false b h = absurd (ground arith)

pub decoder-IsSound : (w : ℕ) → IsSound (decoder w)
decoder-IsSound w = (both (is_sound (decoder w)) (is_quiet (decoder w)) (decoder-IsConsistent w)).0

pub decoder-IsQuiet : (w : ℕ) → IsQuiet (decoder w)
decoder-IsQuiet w = (both (is_sound (decoder w)) (is_quiet (decoder w)) (decoder-IsConsistent w)).1

-- A load or a store redirects nothing.
pub memory_only :
    (d : Bundle)
    → IsSound d
    → (d.is_load || d.is_store) ≡ true
    → (d.is_branch || d.is_jal || d.is_jalr || d.is_mret) ≡ false
memory_only d h memory = ground (arith, h)

pub load_only : (d : Bundle) → IsSound d → d.is_load ≡ true → d.is_store ≡ false
load_only d h load = ground (arith, h)

pub memory_not_csr : (d : Bundle) → IsSound d → (d.is_load || d.is_store) ≡ true → d.is_csr ≡ false
memory_not_csr d h memory = ground (arith, h)
