-- ===== src/Rtl/Decoder/Compressed.antt =====
-- rtl/core/decoder.sv: the 16-bit instructions, by quadrant.
use riscv_vibecoded.Rtl.Decoder.Outputs.{Bundle, c_default, c_high, c_low, illegal}
use riscv_vibecoded.Isa.Fields.{
  slice, bit, c_imm_sext6, c_imm_lui, c_imm_16sp, c_imm_4spn, c_imm_cl, c_imm_lwsp, c_imm_swsp,
  c_imm_cb, c_imm_cj, c_shamt,
}
use riscv_vibecoded.Rtl.Pkg.{
  opa_x0, opa_rs1, opa_pc, opb_rs2, opb_imm, alu_add, alu_sub, alu_sll, alu_xor, alu_srl, alu_sra,
  alu_or, alu_and,
}
use riscv_vibecoded.Prelude.{ℕ, true, ◌==◌, if◌then◌else◌}

-- The hint with a zero immediate is a no-op, anything else is written.
abbrev pub hint_or_write : Bundle → Bundle
hint_or_write d = if d.imm == 0 then record d { is_nop = true } else record d { rd_we = true }

-- c.addi4spn, c.lw and c.sw.
unfoldable pub quad0 : ℕ → Bundle
quad0 insn =
    let d = c_default insn in
    let funct3 = slice 15 13 insn in
    if funct3 == 0b000
    then hint_or_write (record d { rd_addr = c_low insn; rs1_addr = 2; imm = c_imm_4spn insn })
    else if funct3 == 0b010
    then record d {
      rs1_addr = c_high insn;
      rd_addr = c_low insn;
      imm = c_imm_cl insn;
      lsu_funct3 = 0b010;
      is_load = true;
      rd_we = true;
    }
    else if funct3 == 0b110
    then record d {
      rs1_addr = c_high insn;
      rs2_addr = c_low insn;
      imm = c_imm_cl insn;
      lsu_funct3 = 0b010;
      is_store = true;
    }
    else illegal d

-- c.srli, c.srai, c.andi and the register operations.
unfoldable pub quad1_alu : ℕ → Bundle
quad1_alu insn =
    let d = c_default insn in
    let funct2 = slice 11 10 insn in
    let function = slice 6 5 insn in
    if funct2 == 0b00
    then (if bit 12 insn == 1 then illegal d else record d {
      rs1_addr = c_high insn;
      rd_addr = c_high insn;
      imm = c_shamt insn;
      alu_a_sel = opa_rs1;
      alu_b_sel = opb_imm;
      alu_op = alu_srl;
      rd_we = true;
    })
    else if funct2 == 0b01
    then (if bit 12 insn == 1 then illegal d else record d {
      rs1_addr = c_high insn;
      rd_addr = c_high insn;
      imm = c_shamt insn;
      alu_a_sel = opa_rs1;
      alu_b_sel = opb_imm;
      alu_op = alu_sra;
      rd_we = true;
    })
    else if funct2 == 0b10
    then record d {
      rs1_addr = c_high insn;
      rd_addr = c_high insn;
      imm = c_imm_sext6 insn;
      alu_a_sel = opa_rs1;
      alu_b_sel = opb_imm;
      alu_op = alu_and;
      rd_we = true;
    }
    else if bit 12 insn == 0
    then record d {
      rs1_addr = c_high insn;
      rs2_addr = c_low insn;
      rd_addr = c_high insn;
      alu_a_sel = opa_rs1;
      alu_b_sel = opb_rs2;
      alu_op =
          if function == 0b00
          then alu_sub
          else if function == 0b01
          then alu_xor
          else if function == 0b10
          then alu_or
          else alu_and;
      rd_we = true;
    }
    else illegal d

unfoldable pub quad1 : ℕ → Bundle
quad1 insn =
    let d = c_default insn in
    let funct3 = slice 15 13 insn in
    let rd = slice 11 7 insn in
    let add = record d { alu_a_sel = opa_rs1; alu_b_sel = opb_imm; alu_op = alu_add } in
    let jump = record add { alu_a_sel = opa_pc; imm = c_imm_cj insn; is_jal = true } in
    let branch = record d {
      rs1_addr = c_high insn;
      imm = c_imm_cb insn;
      alu_a_sel = opa_rs1;
      alu_b_sel = opb_rs2;
      is_branch = true;
    } in
    if funct3 == 0b000
    then record add { rs1_addr = rd; rd_addr = rd; imm = c_imm_sext6 insn; rd_we = true }
    else if funct3 == 0b001
    then record jump { rd_addr = 1; rd_we = true }
    else if funct3 == 0b010
    then record add { rd_addr = rd; imm = c_imm_sext6 insn; alu_a_sel = opa_x0; rd_we = true }
    else if funct3 == 0b011
    then (if rd == 2
        then hint_or_write (record add { rs1_addr = 2; rd_addr = 2; imm = c_imm_16sp insn })
        else hint_or_write (record add { rd_addr = rd; imm = c_imm_lui insn; alu_a_sel = opa_x0 }))
    else if funct3 == 0b100
    then quad1_alu insn
    else if funct3 == 0b101
    then jump
    else if funct3 == 0b110
    then record branch { branch_funct3 = 0b000 }
    else record branch { branch_funct3 = 0b001 }

-- c.mv and c.jr, by funct4 1000, and c.add, c.jalr and c.ebreak, by funct4 1001.
unfoldable pub quad2_reg : ℕ → Bundle
quad2_reg insn =
    let d = c_default insn in
    let rd = slice 11 7 insn in
    let rs2 = slice 6 2 insn in
    let jump = record d {
      rs1_addr = rd;
      alu_a_sel = opa_rs1;
      alu_b_sel = opb_imm;
      alu_op = alu_add;
      is_jalr = true;
    } in
    if slice 15 12 insn == 0b1000
    then (if rs2 == 0 then (if rd == 0 then illegal d else jump) else record d {
      rd_addr = rd;
      rs2_addr = rs2;
      alu_a_sel = opa_x0;
      alu_b_sel = opb_rs2;
      alu_op = alu_add;
      rd_we = true;
    })
    else if slice 15 12 insn == 0b1001
    then (if rs2 == 0
        then (if rd == 0
            then record d { is_ebreak = true }
            else record jump { rd_addr = 1; rd_we = true })
        else record d {
          rs1_addr = rd;
          rs2_addr = rs2;
          rd_addr = rd;
          alu_a_sel = opa_rs1;
          alu_b_sel = opb_rs2;
          alu_op = alu_add;
          rd_we = true;
        })
    else illegal d

unfoldable pub quad2 : ℕ → Bundle
quad2 insn =
    let d = c_default insn in
    let funct3 = slice 15 13 insn in
    let rd = slice 11 7 insn in
    if funct3 == 0b000
    then (if slice 15 12 insn == 0b0000
        then record d {
          rs1_addr = rd;
          rd_addr = rd;
          imm = c_shamt insn;
          alu_a_sel = opa_rs1;
          alu_b_sel = opb_imm;
          alu_op = alu_sll;
          rd_we = true;
        }
        else illegal d)
    else if funct3 == 0b100
    then quad2_reg insn
    else if funct3 == 0b010
    then (let load = record d {
      rd_addr = rd;
      rs1_addr = 2;
      imm = c_imm_lwsp insn;
      lsu_funct3 = 0b010;
    } in
        if rd == 0
        then record load { is_nop = true }
        else record load { is_load = true; rd_we = true })
    else if funct3 == 0b110
    then record d {
      rs1_addr = 2;
      rs2_addr = slice 6 2 insn;
      imm = c_imm_swsp insn;
      lsu_funct3 = 0b010;
      is_store = true;
    }
    else illegal d

-- By the quadrant, which is not 11.
unfoldable pub decode_c : ℕ → Bundle
decode_c insn =
    if slice 1 0 insn == 0b00
    then quad0 insn
    else if slice 1 0 insn == 0b01
    then quad1 insn
    else if slice 1 0 insn == 0b10
    then quad2 insn
    else illegal (c_default insn)
