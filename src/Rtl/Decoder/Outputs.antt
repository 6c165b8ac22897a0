-- ===== src/Rtl/Decoder/Outputs.antt =====
-- rtl/core/decoder.sv: the outputs of the decoder and their defaults.
use riscv_vibecoded.Isa.Fields.{slice}
use riscv_vibecoded.Rtl.Pkg.{AluOp, CsrOp, AluASel, AluBSel, alu_add, csr_rw, opa_rs1, opb_imm}
use riscv_vibecoded.Prelude.{ℕ, ◌+◌, ◌*◌, ◌^◌, Bool, true, false}

pub record Bundle : Type 0 where
  pub rs1_addr : ℕ
  pub rs2_addr : ℕ
  pub rd_addr : ℕ
  pub rd_we : Bool
  pub imm : ℕ
  pub alu_a_sel : AluASel
  pub alu_b_sel : AluBSel
  pub alu_op : AluOp
  pub branch_funct3 : ℕ
  pub is_branch : Bool
  pub is_jal : Bool
  pub is_jalr : Bool
  pub is_load : Bool
  pub is_store : Bool
  pub lsu_funct3 : ℕ
  pub is_nop : Bool
  pub is_c : Bool
  pub is_csr : Bool
  pub csr_addr : ℕ
  pub csr_op : CsrOp
  pub csr_imm : Bool
  pub is_ecall : Bool
  pub is_ebreak : Bool
  pub is_mret : Bool
  pub is_illegal : Bool

abbrev pub default_bundle : ℕ → Bundle
default_bundle insn = record {
  rs1_addr = slice 19 15 insn;
  rs2_addr = slice 24 20 insn;
  rd_addr = slice 11 7 insn;
  rd_we = false;
  imm = 0;
  alu_a_sel = opa_rs1;
  alu_b_sel = opb_imm;
  alu_op = alu_add;
  branch_funct3 = slice 14 12 insn;
  is_branch = false;
  is_jal = false;
  is_jalr = false;
  is_load = false;
  is_store = false;
  lsu_funct3 = slice 14 12 insn;
  is_nop = false;
  is_c = false;
  is_csr = false;
  csr_addr = 0;
  csr_op = csr_rw;
  csr_imm = false;
  is_ecall = false;
  is_ebreak = false;
  is_mret = false;
  is_illegal = false;
}

-- The defaults of a 16-bit instruction.
abbrev pub c_default : ℕ → Bundle
c_default insn = record (default_bundle insn) {
  is_c = true;
  rs1_addr = 0;
  rs2_addr = 0;
  rd_addr = 0;
}

-- {2'b01, insn_i[9:7]} and {2'b01, insn_i[4:2]}
abbrev pub c_high : ℕ → ℕ
c_high insn = 0b01 * 2 ^ 3 + slice 9 7 insn

abbrev pub c_low : ℕ → ℕ
c_low insn = 0b01 * 2 ^ 3 + slice 4 2 insn

-- d with is_illegal_o set.
abbrev pub illegal : Bundle → Bundle
illegal d = record d { is_illegal = true }

-- d with the write enable taken back, and illegal.
abbrev pub rejected : Bundle → Bundle
rejected d = record d { rd_we = false; is_illegal = true }
