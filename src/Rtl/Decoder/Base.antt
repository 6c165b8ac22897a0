-- ===== src/Rtl/Decoder/Base.antt =====
-- rtl/core/decoder.sv: the 32-bit instructions, by opcode.
use riscv_vibecoded.Rtl.Decoder.Outputs.{Bundle, default_bundle, illegal, rejected}
use riscv_vibecoded.Isa.Fields.{slice, bit, imm_i, imm_s, imm_b, imm_j, imm_u, imm_shift}
use riscv_vibecoded.Rtl.Pkg.{
  csr_rw, csr_rs, csr_rc, opa_x0, opa_rs1, opa_pc, opb_rs2, opb_imm, opb_uimm, AluOp, alu_add,
  alu_sub, alu_sll, alu_slt, alu_sltu, alu_xor, alu_srl, alu_sra, alu_or, alu_and, alu_mul_alt,
  alu_mulh_alt, alu_mulhsu_alt, alu_mulhu_alt, alu_div_alt, alu_divu_alt, alu_rem_alt, alu_remu_alt,
}
use riscv_vibecoded.Prelude.{ℕ, true, not, ◌==◌, ◌&&◌, ◌||◌, if◌then◌else◌}

unfoldable pub m_op : ℕ → AluOp
m_op funct3 =
    if funct3 == 0b000
    then alu_mul_alt
    else if funct3 == 0b001
    then alu_mulh_alt
    else if funct3 == 0b010
    then alu_mulhsu_alt
    else if funct3 == 0b011
    then alu_mulhu_alt
    else if funct3 == 0b100
    then alu_div_alt
    else if funct3 == 0b101
    then alu_divu_alt
    else if funct3 == 0b110
    then alu_rem_alt
    else alu_remu_alt

unfoldable pub register_op : ℕ → Bundle
register_op insn =
    let funct3 = slice 14 12 insn in
    let funct7 = slice 31 25 insn in
    let d = record (default_bundle insn) {
      rd_we = true;
      alu_a_sel = opa_rs1;
      alu_b_sel = opb_rs2;
    } in
    let plain =
      λ (o : AluOp). if funct7 == 0b0000000 then record d { alu_op = o } else rejected d in
    if funct7 == 0b0000001
    then record d { alu_op = m_op funct3 }
    else if not (funct7 == 0b0000000) && not (funct7 == 0b0100000)
    then rejected d
    else if funct3 == 0b000
    then record d { alu_op = if bit 30 insn == 1 then alu_sub else alu_add }
    else if funct3 == 0b001
    then plain alu_sll
    else if funct3 == 0b010
    then plain alu_slt
    else if funct3 == 0b011
    then plain alu_sltu
    else if funct3 == 0b100
    then plain alu_xor
    else if funct3 == 0b101
    then record d { alu_op = if bit 30 insn == 1 then alu_sra else alu_srl }
    else if funct3 == 0b110
    then plain alu_or
    else if funct3 == 0b111
    then plain alu_and
    else rejected d

unfoldable pub immediate_op : ℕ → Bundle
immediate_op insn =
    let funct3 = slice 14 12 insn in
    let funct7 = slice 31 25 insn in
    let d = record (default_bundle insn) {
      rd_we = true;
      alu_a_sel = opa_rs1;
      alu_b_sel = opb_imm;
    } in
    let plain = λ (o : AluOp). record d { alu_op = o; imm = imm_i insn } in
    if funct3 == 0b000
    then plain alu_add
    else if funct3 == 0b010
    then plain alu_slt
    else if funct3 == 0b011
    then plain alu_sltu
    else if funct3 == 0b100
    then plain alu_xor
    else if funct3 == 0b110
    then plain alu_or
    else if funct3 == 0b111
    then plain alu_and
    else if funct3 == 0b001
    then (if funct7 == 0b0000000
        then record d { alu_op = alu_sll; imm = imm_shift insn }
        else rejected d)
    else if funct3 == 0b101
    then (if not (funct7 == 0b0000000) && not (funct7 == 0b0100000) then rejected d else record d {
      alu_op = if bit 30 insn == 1 then alu_sra else alu_srl;
      imm = imm_shift insn;
    })
    else rejected d

unfoldable pub branch_insn : ℕ → Bundle
branch_insn insn =
    let funct3 = slice 14 12 insn in
    let d = record (default_bundle insn) { imm = imm_b insn; rd_addr = 0 } in
    if funct3 == 0b000
      || funct3 == 0b001
      || funct3 == 0b100
      || funct3 == 0b101
      || funct3 == 0b110
      || funct3 == 0b111
    then record d { is_branch = true; branch_funct3 = funct3; alu_b_sel = opb_rs2 }
    else illegal d

unfoldable pub load_insn : ℕ → Bundle
load_insn insn =
    let funct3 = slice 14 12 insn in
    let d = record (default_bundle insn) {
      is_load = true;
      lsu_funct3 = funct3;
      imm = imm_i insn;
    } in
    if funct3 == 0b000 || funct3 == 0b001 || funct3 == 0b010 || funct3 == 0b100 || funct3 == 0b101
    then record d { rd_we = true }
    else illegal d

unfoldable pub store_insn : ℕ → Bundle
store_insn insn =
    let funct3 = slice 14 12 insn in
    let d = record (default_bundle insn) {
      is_store = true;
      lsu_funct3 = funct3;
      rd_addr = 0;
      imm = imm_s insn;
    } in
    if not (funct3 == 0b000) && not (funct3 == 0b001) && not (funct3 == 0b010) then illegal d else d

-- ecall, ebreak, mret and wfi.
unfoldable pub environment : ℕ → Bundle
environment insn =
    let d = default_bundle insn in
    let code = slice 31 20 insn in
    if code == 0x000
    then record d { is_ecall = true }
    else if code == 0x001
    then record d { is_ebreak = true }
    else if code == 0x302
    then record d { is_mret = true }
    else if code == 0x105
    then record d { is_nop = true }
    else illegal d

unfoldable pub csr_insn : ℕ → Bundle
csr_insn insn =
    let immediate = bit 14 insn == 1 in
    let operation = slice 13 12 insn in
    record (default_bundle insn) {
      is_csr = true;
      csr_addr = slice 31 20 insn;
      csr_imm = immediate;
      csr_op = if operation == 0b10 then csr_rs else if operation == 0b11 then csr_rc else csr_rw;
      rd_addr = slice 11 7 insn;
      rd_we = not (slice 11 7 insn == 0);
      rs1_addr = if immediate then 0 else slice 19 15 insn;
    }

unfoldable pub system_insn : ℕ → Bundle
system_insn insn =
    let funct3 = slice 14 12 insn in
    if funct3 == 0b000
    then environment insn
    else if funct3 == 0b100
    then illegal (default_bundle insn)
    else csr_insn insn

unfoldable pub decode_base : ℕ → Bundle
decode_base insn =
    let opcode = slice 6 0 insn in
    let d = default_bundle insn in
    let upper = record d {
      rd_we = true;
      alu_b_sel = opb_uimm;
      alu_op = alu_add;
      imm = imm_u insn;
    } in
    if opcode == 0b0110011
    then register_op insn
    else if opcode == 0b0010011
    then immediate_op insn
    else if opcode == 0b0110111
    then record upper { alu_a_sel = opa_x0 }
    else if opcode == 0b0010111
    then record upper { alu_a_sel = opa_pc }
    else if opcode == 0b1101111
    then record d { rd_we = true; is_jal = true; imm = imm_j insn }
    else if opcode == 0b1100111
    then (if slice 14 12 insn == 0b000
        then record d { rd_we = true; is_jalr = true; imm = imm_i insn }
        else illegal d)
    else if opcode == 0b1100011
    then branch_insn insn
    else if opcode == 0b0000011
    then load_insn insn
    else if opcode == 0b0100011
    then store_insn insn
    else if opcode == 0b0001111
    then record d { is_nop = true }
    else if opcode == 0b1110011
    then system_insn insn
    else illegal d
