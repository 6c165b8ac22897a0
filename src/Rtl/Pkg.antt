-- ===== src/Rtl/Pkg.antt =====
-- rtl/core/up5k_rv_pkg.sv: the enumerations, and operators on words that the language has.
use riscv_vibecoded.Prelude.{ℕ, ◌-◌, ◌*◌, ◌+◌, ◌^◌, Bool, ◌==◌, if◌then◌else◌}
use riscv_vibecoded.Isa.Fields.{slice, bit}
use riscv_vibecoded.Py.Int.{ℤ, pos, negsuc}

pub data AluOp : Type 0 where
  alu_add : AluOp
  alu_sub : AluOp
  alu_sll : AluOp
  alu_slt : AluOp
  alu_sltu : AluOp
  alu_xor : AluOp
  alu_srl : AluOp
  alu_sra : AluOp
  alu_or : AluOp
  alu_and : AluOp
  alu_mul_alt : AluOp
  alu_mulh_alt : AluOp
  alu_mulhsu_alt : AluOp
  alu_mulhu_alt : AluOp
  alu_div_alt : AluOp
  alu_divu_alt : AluOp
  alu_rem_alt : AluOp
  alu_remu_alt : AluOp

pub data CsrOp : Type 0 where
  csr_rw : CsrOp
  csr_rs : CsrOp
  csr_rc : CsrOp

pub data AluASel : Type 0 where
  opa_x0 : AluASel
  opa_rs1 : AluASel
  opa_pc : AluASel

pub data AluBSel : Type 0 where
  opb_rs2 : AluBSel
  opb_imm : AluBSel
  opb_uimm : AluBSel

pub data Phase : Type 0 where
  ph_idle : Phase
  ph_id : Phase
  ph_ex : Phase
  ph_mem : Phase
  ph_wb : Phase

pub data FetchPhase : Type 0 where
  f_idle : FetchPhase
  f_req : FetchPhase

-- $signed of a 32-bit word.
unfoldable pub signed : ℕ → ℤ
signed a = if bit 31 a == 1 then negsuc (2 ^ 32 - 1 - a) else pos a

-- ~w of a 32-bit word.
abbrev pub complement : ℕ → ℕ
complement w = 2 ^ 32 - 1 - w

-- A bit as a number.
abbrev pub one_bit : Bool → ℕ
one_bit b = if b then 1 else 0

-- An assignment of v to the bits [hi:lo] of w.
abbrev pub assign : ℕ → ℕ → ℕ → ℕ → ℕ
assign hi lo v w = w - slice hi lo w * 2 ^ lo + v * 2 ^ lo
