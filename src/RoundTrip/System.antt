-- ===== src/RoundTrip/System.antt =====
-- The RV32M and Zicsr helpers of tools/riscv_enc.py.
use riscv_vibecoded.Isa.Insn.{op, system, decode32, decode, bytes, Encodes}
use riscv_vibecoded.Words.Base.{i_word, i_chain}
use riscv_vibecoded.RoundTrip.Base.{rtype-Encodes}
use riscv_vibecoded.Encoder.Mul.{mop, mul, mulh, mulhsu, mulhu, div, divu, rem, remu}
use riscv_vibecoded.Encoder.Csr.{csr, csrrw, csrrs, csrrc, csrrwi, csrrsi, csrrci}
use riscv_vibecoded.Py.Int.{ℤ, pos, ◌<<ℤ◌}
use riscv_vibecoded.Py.Int.Mask.{low32, low_shifted}
use riscv_vibecoded.Prelude.{ℕ, ◌%◌, ◌^◌, ◌<◌, ◌≡◌, some, arith}

-- The eight RV32M helpers with registers in range are the R-format instructions with funct7
-- 0000001 and the eight values of funct3 in order.
pub mul-Encodes :
    (rs1 rs2 rd : ℕ)
    → rs1 < 32
    → rs2 < 32
    → rd < 32
    → Encodes (mul (pos rs1) (pos rs2) (pos rd)) 4 (op 1 0 rs1 rs2 rd)
      × Encodes (mulh (pos rs1) (pos rs2) (pos rd)) 4 (op 1 1 rs1 rs2 rd)
      × Encodes (mulhsu (pos rs1) (pos rs2) (pos rd)) 4 (op 1 2 rs1 rs2 rd)
      × Encodes (mulhu (pos rs1) (pos rs2) (pos rd)) 4 (op 1 3 rs1 rs2 rd)
      × Encodes (div (pos rs1) (pos rs2) (pos rd)) 4 (op 1 4 rs1 rs2 rd)
      × Encodes (divu (pos rs1) (pos rs2) (pos rd)) 4 (op 1 5 rs1 rs2 rd)
      × Encodes (rem (pos rs1) (pos rs2) (pos rd)) 4 (op 1 6 rs1 rs2 rd)
      × Encodes (remu (pos rs1) (pos rs2) (pos rd)) 4 (op 1 7 rs1 rs2 rd)
unfolding mul mulh mulhsu mulhu div divu rem remu mop
mul-Encodes rs1 rs2 rd h1 h2 hd =
    let each = λ (f3 : ℕ) (h : f3 < 8). rtype-Encodes f3 1 rs1 rs2 rd h (omega arith) h1 h2 hd in
    (
      each 0 (omega arith),
      each 1 (omega arith),
      each 2 (omega arith),
      each 3 (omega arith),
      each 4 (omega arith),
      each 5 (omega arith),
      each 6 (omega arith),
      each 7 (omega arith),
    )

decode-csr_word :
    (addr field f3 rd : ℕ)
    → addr < 4096
    → field < 32
    → f3 < 8
    → rd < 32
    → decode (i_word addr field f3 rd 0x73) ≡ some (system f3 addr field rd)
unfolding decode decode32
decode-csr_word addr field f3 rd ha hf h3 hd = ground arith

csr-Encodes :
    (f3 rd : ℕ) (addr field : ℤ)
    → f3 < 8
    → rd < 32
    → Encodes
        (csr (pos f3) addr field (pos rd))
        4
        (system f3 (low32 addr % 2 ^ 12) (low32 field % 2 ^ 5) rd)
unfolding csr ◌<<ℤ◌ bytes
csr-Encodes f3 rd addr field h3 hd = record {
  word = i_word (low32 addr % 2 ^ 12) (low32 field % 2 ^ 5) f3 rd 0x73;
  is_word =
      rw (low_shifted 12 20 addr (omega arith), low_shifted 5 15 field (omega arith))
        (i_chain (low32 addr % 2 ^ 12) (low32 field % 2 ^ 5) f3 rd 0x73 (omega arith) (omega arith)
          h3 hd (omega arith));
  fits = omega arith;
  sized = ground arith;
  decoded =
      decode-csr_word (low32 addr % 2 ^ 12) (low32 field % 2 ^ 5) f3 rd (omega arith) (omega arith)
        h3 hd;
}

-- The six CSR helpers with a destination in range are the SYSTEM instructions with funct3 1, 2, 3,
-- 5, 6 and 7, the 12 low bits of the address and the 5 low bits of the register or immediate.
pub csr_ops-Encodes :
    (addr field : ℤ) (rd : ℕ)
    → rd < 32
    → let a = low32 addr % 2 ^ 12 in
      let x = low32 field % 2 ^ 5 in
      Encodes (csrrw addr field (pos rd)) 4 (system 1 a x rd)
      × Encodes (csrrs addr field (pos rd)) 4 (system 2 a x rd)
      × Encodes (csrrc addr field (pos rd)) 4 (system 3 a x rd)
      × Encodes (csrrwi addr field (pos rd)) 4 (system 5 a x rd)
      × Encodes (csrrsi addr field (pos rd)) 4 (system 6 a x rd)
      × Encodes (csrrci addr field (pos rd)) 4 (system 7 a x rd)
unfolding csrrw csrrs csrrc csrrwi csrrsi csrrci
csr_ops-Encodes addr field rd hd =
    let each = λ (f3 : ℕ) (h : f3 < 8). csr-Encodes f3 rd addr field h hd in
    (
      each 1 (omega arith),
      each 2 (omega arith),
      each 3 (omega arith),
      each 5 (omega arith),
      each 6 (omega arith),
      each 7 (omega arith),
    )
