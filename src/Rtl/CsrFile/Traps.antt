-- ===== src/Rtl/CsrFile/Traps.antt =====
-- rtl/core/csr_file.sv: what holds of the registers after every edge, and a trap with its return.
use riscv_vibecoded.Isa.Fields.{slice, bit}
use riscv_vibecoded.Rtl.CsrFile.{
  Csrs, Ports, clock, write, enter_trap, return_from_trap, assign_mstatus,
}
use riscv_vibecoded.Prelude.{
  ℕ, ◌+◌, ◌*◌, ◌%◌, ◌^◌, ◌<◌, Bool, true, false, ◌==◌, if◌then◌else◌, ◌≡◌, refl, arith, ◌∙◌, inl,
  inr, Bool-cases,
}

-- No bits but MIE, MPIE and MPP.
abbrev pub OnlyFields : ℕ → Type 0
OnlyFields m = m ≡ bit 3 m * 2 ^ 3 + bit 7 m * 2 ^ 7 + slice 12 11 m * 2 ^ 11

-- mstatus has MIE, MPIE and MPP only, and the registers are as wide as they are declared.
pub record IsWellFormed (s : Csrs) : Type 0 where
  pub fields : OnlyFields s.mstatus
  pub mtvec_word : s.mtvec < 2 ^ 32
  pub mepc_word : s.mepc < 2 ^ 32
  pub mcause_word : s.mcause < 2 ^ 32
  pub mtval_word : s.mtval < 2 ^ 32
  pub mcycle_long : s.mcycle < 2 ^ 64

pub assign_mstatus_fields :
    (mie mpie mpp m : ℕ)
    → mie < 2
    → mpie < 2
    → mpp < 4
    → OnlyFields m
    → assign_mstatus mie mpie mpp m ≡ mie * 2 ^ 3 + mpie * 2 ^ 7 + mpp * 2 ^ 11
unfolding assign_mstatus
assign_mstatus_fields mie mpie mpp m a b c h = omega (arith, h)

abbrev pub fields_value : ℕ → ℕ → ℕ → ℕ
fields_value mie mpie mpp = mie * 2 ^ 3 + mpie * 2 ^ 7 + mpp * 2 ^ 11

fields-OnlyFields :
    (mie mpie mpp : ℕ) → mie < 2 → mpie < 2 → mpp < 4 → OnlyFields (fields_value mie mpie mpp)
fields-OnlyFields mie mpie mpp a b c = omega arith

assign-OnlyFields :
    (mie mpie mpp m : ℕ)
    → mie < 2
    → mpie < 2
    → mpp < 4
    → OnlyFields m
    → OnlyFields (assign_mstatus mie mpie mpp m)
assign-OnlyFields mie mpie mpp m a b c h =
    rw (assign_mstatus_fields mie mpie mpp m a b c h) (fields-OnlyFields mie mpie mpp a b c)

-- MIE through a trap and its return.
pub assign_mstatus_lem :
    (mie m : ℕ)
    → mie < 2
    → OnlyFields m
    → assign_mstatus (bit 7 (assign_mstatus 0 mie 3 m)) 1 0 (assign_mstatus 0 mie 3 m)
      ≡ mie * 2 ^ 3 + 2 ^ 7
assign_mstatus_lem mie m a h =
    let trapped = assign_mstatus_fields 0 mie 3 m (omega arith) a (omega arith) h in
    let only : OnlyFields (0 * 2 ^ 3 + mie * 2 ^ 7 + 3 * 2 ^ 11) = omega arith in
    rw trapped (
      assign_mstatus_fields (bit 7 (0 * 2 ^ 3 + mie * 2 ^ 7 + 3 * 2 ^ 11)) 1 0
        (0 * 2 ^ 3 + mie * 2 ^ 7 + 3 * 2 ^ 11) (omega arith) (omega arith) (omega arith) only
      ∙ omega arith)

-- The inputs are words.
pub record AreWords (p : Ports) : Type 0 where
  pub wdata : p.csr_wdata < 2 ^ 32
  pub trap_mepc : p.trap_mepc < 2 ^ 32
  pub trap_mcause : p.trap_mcause < 2 ^ 32
  pub trap_mtval : p.trap_mtval < 2 ^ 32

write-OnlyFields : (p : Ports) (s : Csrs) → OnlyFields s.mstatus → OnlyFields (write p s).mstatus
unfolding write
write-OnlyFields p s h = elim (Bool-cases (p.csr_addr == 0x300)) [
  | inl e ↦
      let v = p.csr_wdata in
      rw e (
        assign-OnlyFields (bit 3 v) (bit 7 v) (slice 12 11 v) s.mstatus (omega arith) (omega arith)
          (omega arith) h)
  | inr e ↦ let same : (write p s).mstatus ≡ s.mstatus = ground arith in rw same h
]

write-IsWellFormed : (p : Ports) (s : Csrs) → AreWords p → IsWellFormed s → IsWellFormed (write p s)
unfolding write
write-IsWellFormed p s words h = record {
  fields = write-OnlyFields p s h.fields;
  mtvec_word = ground (arith, words.wdata);
  mepc_word = ground (arith, words.wdata);
  mcause_word = ground (arith, words.wdata);
  mtval_word = ground (arith, words.wdata);
  mcycle_long = ground arith;
}

enter_trap-IsWellFormed :
    (p : Ports) (old n : Csrs) → AreWords p → IsWellFormed n → IsWellFormed (enter_trap p old n)
unfolding enter_trap
enter_trap-IsWellFormed p old n words h = record {
  fields =
      assign-OnlyFields 0 (bit 3 old.mstatus) 3 n.mstatus (omega arith) (omega arith) (omega arith)
        h.fields;
  mtvec_word = h.mtvec_word;
  mepc_word = words.trap_mepc;
  mcause_word = words.trap_mcause;
  mtval_word = words.trap_mtval;
  mcycle_long = h.mcycle_long;
}

return-IsWellFormed : (old n : Csrs) → IsWellFormed n → IsWellFormed (return_from_trap old n)
unfolding return_from_trap
return-IsWellFormed old n h = record {
  fields =
      assign-OnlyFields (bit 7 old.mstatus) 1 0 n.mstatus (omega arith) (omega arith) (omega arith)
        h.fields;
  mtvec_word = h.mtvec_word;
  mepc_word = h.mepc_word;
  mcause_word = h.mcause_word;
  mtval_word = h.mtval_word;
  mcycle_long = h.mcycle_long;
}

applied :
    (c : Bool) (x y : Csrs)
    → (IsWellFormed y → IsWellFormed x)
    → IsWellFormed y
    → IsWellFormed (if c then x else y)
applied true x y f h = f h
applied false x y f h = h

-- Every edge, with any ports that are words, keeps mstatus free of bits other than MIE, MPIE and
-- MPP and the registers within their widths.
pub clock-IsWellFormed :
    (p : Ports) (s : Csrs) → AreWords p → IsWellFormed s → IsWellFormed (clock p s)
unfolding clock
clock-IsWellFormed p s words h =
    let counted : Csrs = record s { mcycle = (s.mcycle + 1) % 2 ^ 64 } in
    let written : Csrs = if p.csr_we then write p counted else counted in
    let trapped : Csrs = if p.trap_enter then enter_trap p s written else written in
    applied p.mret (return_from_trap s trapped) trapped (return-IsWellFormed s trapped) (
      applied p.trap_enter (enter_trap p s written) written
        (enter_trap-IsWellFormed p s written words)
        (applied p.csr_we (write p counted) counted (write-IsWellFormed p counted words) record {
          fields = h.fields;
          mtvec_word = h.mtvec_word;
          mepc_word = h.mepc_word;
          mcause_word = h.mcause_word;
          mtval_word = h.mtval_word;
          mcycle_long = omega arith;
        }))

-- The counter counts every edge, whatever is written to it or to anything else.
pub clock-mcycle : (p : Ports) (s : Csrs) → (clock p s).mcycle ≡ (s.mcycle + 1) % 2 ^ 64
unfolding clock write enter_trap return_from_trap
clock-mcycle p s = ground arith

-- A trap without a write in the same edge, then a return in the next, where mstatus has no bits but
-- MIE, MPIE and MPP: MIE is as before the trap, MPIE is set, MPP is zero, and mepc is the address that
-- trapped.
pub return-trap :
    (p q : Ports) (s : Csrs)
    → p.csr_we ≡ false
    → p.trap_enter ≡ true
    → p.mret ≡ false
    → q.csr_we ≡ false
    → q.trap_enter ≡ false
    → q.mret ≡ true
    → OnlyFields s.mstatus
    → ((clock q (clock p s)).mstatus ≡ bit 3 s.mstatus * 2 ^ 3 + 2 ^ 7)
      × ((clock q (clock p s)).mepc ≡ p.trap_mepc)
unfolding clock enter_trap return_from_trap
return-trap p q s a b c d e f h =
    rw (a, b, c, d, e, f) (assign_mstatus_lem (bit 3 s.mstatus) s.mstatus (omega arith) h, refl)
