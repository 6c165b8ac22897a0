-- ===== src/Encoder/Csr.antt =====
-- tools/riscv_enc.py, the Zicsr helpers and the fixed SYSTEM words.
use riscv_vibecoded.Py.Int.{ℤ, pos, ◌&ℤ◌, ◌|ℤ◌, ◌<<ℤ◌}
use riscv_vibecoded.Encoder.{mask32}

unfoldable pub csr : ℤ → ℤ → ℤ → ℤ → ℤ
csr f3 csr_addr rs1_or_zimm rd = mask32 (
    (csr_addr &ℤ pos 0xFFF) <<ℤ 20
    |ℤ (rs1_or_zimm &ℤ pos 0x1F) <<ℤ 15
    |ℤ f3 <<ℤ 12
    |ℤ rd <<ℤ 7
    |ℤ pos 0x73)

unfoldable pub csrrw : ℤ → ℤ → ℤ → ℤ
csrrw csr_addr rs1 rd = csr (pos 0b001) csr_addr rs1 rd

unfoldable pub csrrs : ℤ → ℤ → ℤ → ℤ
csrrs csr_addr rs1 rd = csr (pos 0b010) csr_addr rs1 rd

unfoldable pub csrrc : ℤ → ℤ → ℤ → ℤ
csrrc csr_addr rs1 rd = csr (pos 0b011) csr_addr rs1 rd

unfoldable pub csrrwi : ℤ → ℤ → ℤ → ℤ
csrrwi csr_addr zimm rd = csr (pos 0b101) csr_addr zimm rd

unfoldable pub csrrsi : ℤ → ℤ → ℤ → ℤ
csrrsi csr_addr zimm rd = csr (pos 0b110) csr_addr zimm rd

unfoldable pub csrrci : ℤ → ℤ → ℤ → ℤ
csrrci csr_addr zimm rd = csr (pos 0b111) csr_addr zimm rd

unfoldable pub ecall : ℤ
ecall = pos 0x00000073

unfoldable pub ebreak : ℤ
ebreak = pos 0x00100073

unfoldable pub mret : ℤ
mret = pos 0x30200073
