-- ===== src/Rtl/CsrFile/Access.antt =====
-- rtl/core/csr_file.sv: reading a CSR after a write.
use riscv_vibecoded.Isa.Fields.{slice, bit}
use riscv_vibecoded.Rtl.CsrFile.{Csrs, Ports, csr_rdata, write}
use riscv_vibecoded.Rtl.CsrFile.Traps.{OnlyFields, fields_value, assign_mstatus_fields}
use riscv_vibecoded.Prelude.{ℕ, Bool, ◌==◌, ◌&&◌, ◌||◌, if◌then◌else◌, ◌≡◌, arith}

-- The CSRs that an instruction writes: the others are read only, or not there.
abbrev pub is_writable : ℕ → Bool
is_writable addr = addr == 0x300 || addr == 0x305 || addr == 0x341 || addr == 0x342 || addr == 0x343

-- mstatus keeps MIE, MPIE and MPP only.
abbrev pub kept : ℕ → ℕ → ℕ
kept addr v = if addr == 0x300 then fields_value (bit 3 v) (bit 7 v) (slice 12 11 v) else v

pub csr_rdata-write :
    (p : Ports) (s : Csrs) (a : ℕ)
    → OnlyFields s.mstatus
    → csr_rdata a (write p s)
      ≡ (if is_writable p.csr_addr && a == p.csr_addr then kept a p.csr_wdata else csr_rdata a s)
unfolding csr_rdata write
csr_rdata-write p s a h =
    let v = p.csr_wdata in
    ground (
      arith,
      assign_mstatus_fields (bit 3 v) (bit 7 v) (slice 12 11 v) s.mstatus (omega arith)
          (omega arith) (omega arith) h,
    )
