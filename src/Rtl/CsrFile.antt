-- ===== src/Rtl/CsrFile.antt =====
-- rtl/core/csr_file.sv: the machine-mode registers, their reads, and one clock edge.
pub mod Traps
pub mod Access
use riscv_vibecoded.Isa.Fields.{slice, bit}
use riscv_vibecoded.Rtl.Pkg.{assign}
use riscv_vibecoded.Prelude.{
  ℕ, ◌+◌, ◌-◌, ◌*◌, ◌/◌, ◌%◌, ◌^◌, Bool, true, false, ◌==◌, if◌then◌else◌,
}

pub record Csrs : Type 0 where
  pub mstatus : ℕ
  pub mtvec : ℕ
  pub mepc : ℕ
  pub mcause : ℕ
  pub mtval : ℕ
  pub mcycle : ℕ

pub record Ports : Type 0 where
  pub csr_addr : ℕ
  pub csr_we : Bool
  pub csr_wdata : ℕ
  pub trap_enter : Bool
  pub trap_mepc : ℕ
  pub trap_mcause : ℕ
  pub trap_mtval : ℕ
  pub mret : Bool

abbrev pub reset : Csrs
reset = record { mstatus = 0; mtvec = 0; mepc = 0; mcause = 0; mtval = 0; mcycle = 0 }

unfoldable pub csr_rdata : ℕ → Csrs → ℕ
csr_rdata addr s =
    if addr == 0x300
    then s.mstatus
    else if addr == 0x305
    then s.mtvec
    else if addr == 0x341
    then s.mepc
    else if addr == 0x342
    then s.mcause
    else if addr == 0x343
    then s.mtval
    else if addr == 0xB00
    then slice 31 0 s.mcycle
    else if addr == 0xB80
    then slice 63 32 s.mcycle
    else 0

-- Assignments of MIE, MPIE and MPP.
unfoldable pub assign_mstatus : ℕ → ℕ → ℕ → ℕ → ℕ
assign_mstatus mie mpie mpp w = assign 12 11 mpp (assign 7 7 mpie (assign 3 3 mie w))

-- The three groups of assignments: each takes the new values so far to those after it.
unfoldable pub write : Ports → Csrs → Csrs
write p n =
    let v = p.csr_wdata in
    if p.csr_addr == 0x300
    then record n { mstatus = assign_mstatus (bit 3 v) (bit 7 v) (slice 12 11 v) n.mstatus }
    else if p.csr_addr == 0x305
    then record n { mtvec = v }
    else if p.csr_addr == 0x341
    then record n { mepc = v }
    else if p.csr_addr == 0x342
    then record n { mcause = v }
    else if p.csr_addr == 0x343
    then record n { mtval = v }
    else n

-- `old` holds the values before the edge, `n` the new ones so far.
unfoldable pub enter_trap : Ports → (old n : Csrs) → Csrs
enter_trap p old n = record n {
  mepc = p.trap_mepc;
  mcause = p.trap_mcause;
  mtval = p.trap_mtval;
  mstatus = assign_mstatus 0 (bit 3 old.mstatus) 0b11 n.mstatus;
}

unfoldable pub return_from_trap : (old n : Csrs) → Csrs
return_from_trap old n = record n { mstatus = assign_mstatus (bit 7 old.mstatus) 1 0b00 n.mstatus }

unfoldable pub clock : Ports → Csrs → Csrs
clock p s =
    let counted = record s { mcycle = (s.mcycle + 1) % 2 ^ 64 } in
    let written = if p.csr_we then write p counted else counted in
    let trapped = if p.trap_enter then enter_trap p s written else written in
    if p.mret then return_from_trap s trapped else trapped
