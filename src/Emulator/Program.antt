-- ===== src/Emulator/Program.antt =====
-- tools/gen_expected.py, `build_program` and `main`: the directed program of the C extension.
use riscv_vibecoded.Emulator.{
  Kind, lui, addi, cli, cadd, csub, cslli, csrli, csrai, candi, cmv, cbeqz, cbnez, cswsp, clwsp,
  clw, csw, caddi, cxor, cor, cand, cjal, cjr, Entry, Retire,
}
use riscv_vibecoded.Emulator.Run.{emulate}
use riscv_vibecoded.Encoder.Base
use riscv_vibecoded.Encoder.Base.{itype}
use riscv_vibecoded.Encoder.Compressed.{
  c_li, c_add, c_sub, c_slli, c_andi, c_mv, c_beqz, c_bnez, c_swsp, c_lwsp, c_lw, c_sw, c_addi,
  c_srai, c_xor, c_or, c_and, c_srli, c_jal, c_jr,
}
use riscv_vibecoded.Py.Int.{ℤ, pos, negsuc}
use riscv_vibecoded.Py.Error.{Result, ok, err, assertion_error, ◌>>=◌}
use riscv_vibecoded.Prelude.{List, [], ◌∷◌, none, length, ◌==◌, if◌then◌else◌}

-- The calls of P, each with the result of its encoder.
abbrev calls : List (ℤ × Result ℤ × Kind × List ℤ)
calls =
    (pos 0x54, (ok (Base.lui (pos 2) (pos 0x10))), lui, pos 2 ∷ pos 0x10000 ∷ [])
    ∷ (
      pos 0x58,
      (ok (itype (pos 0) (pos 2) (pos 2) (pos 0x200))),
      addi,
      pos 2 ∷ pos 2 ∷ pos 0x200 ∷ [],
    )
    ∷ (
      pos 0x5C,
      (ok (itype (pos 0) (pos 0) (pos 8) (pos 0x100))),
      addi,
      pos 8 ∷ pos 0 ∷ pos 0x100 ∷ [],
    )
    ∷ (pos 0x60, (ok (c_li (pos 14) (pos 10))), cli, pos 14 ∷ pos 10 ∷ [])
    ∷ (pos 0x62, (ok (c_li (pos 15) (pos 20))), cli, pos 15 ∷ pos 20 ∷ [])
    ∷ (pos 0x64, (c_add (pos 14) (pos 15) none), cadd, pos 14 ∷ pos 15 ∷ [])
    ∷ (pos 0x66, (c_sub (pos 14) (pos 15)), csub, pos 14 ∷ pos 15 ∷ [])
    ∷ (pos 0x68, (ok (c_slli (pos 14) (pos 2))), cslli, pos 14 ∷ pos 2 ∷ [])
    ∷ (pos 0x6A, (c_andi (pos 14) (negsuc 3)), candi, pos 14 ∷ negsuc 3 ∷ [])
    ∷ (pos 0x6C, (ok (c_mv (pos 17) (pos 14))), cmv, pos 17 ∷ pos 14 ∷ [])
    ∷ (pos 0x6E, (c_beqz (pos 14) (pos 2)), cbeqz, pos 14 ∷ pos 2 ∷ [])
    ∷ (pos 0x70, (c_bnez (pos 14) (pos 4)), cbnez, pos 14 ∷ pos 4 ∷ [])
    ∷ (pos 0x72, (ok (c_li (pos 18) (negsuc 2))), cli, pos 18 ∷ negsuc 2 ∷ [])
    ∷ (pos 0x74, (ok (c_swsp (pos 14) (pos 4))), cswsp, pos 14 ∷ pos 4 ∷ [])
    ∷ (pos 0x76, (ok (c_lwsp (pos 20) (pos 4))), clwsp, pos 20 ∷ pos 4 ∷ [])
    ∷ (pos 0x78, (c_lw (pos 8) (pos 13) (pos 0)), clw, pos 8 ∷ pos 13 ∷ pos 0 ∷ [])
    ∷ (pos 0x7A, (c_sw (pos 8) (pos 14) (pos 4)), csw, pos 8 ∷ pos 14 ∷ pos 4 ∷ [])
    ∷ (pos 0x7C, (ok (c_addi (pos 14) (negsuc 0))), caddi, pos 14 ∷ negsuc 0 ∷ [])
    ∷ (pos 0x7E, (c_srai (pos 14) (pos 2)), csrai, pos 14 ∷ pos 2 ∷ [])
    ∷ (pos 0x80, (c_xor (pos 14) (pos 15)), cxor, pos 14 ∷ pos 15 ∷ [])
    ∷ (pos 0x82, (c_or (pos 14) (pos 15)), cor, pos 14 ∷ pos 15 ∷ [])
    ∷ (pos 0x84, (c_and (pos 14) (pos 15)), cand, pos 14 ∷ pos 15 ∷ [])
    ∷ (pos 0x86, (c_srli (pos 14) (pos 2)), csrli, pos 14 ∷ pos 2 ∷ [])
    ∷ (pos 0x88, (ok (c_slli (pos 14) (pos 3))), cslli, pos 14 ∷ pos 3 ∷ [])
    ∷ (pos 0x8A, (ok (c_jal (pos 4))), cjal, pos 4 ∷ [])
    ∷ (pos 0x8C, (ok (c_li (pos 18) (negsuc 2))), cli, pos 18 ∷ negsuc 2 ∷ [])
    ∷ (pos 0x8E, (ok (c_li (pos 18) (pos 7))), cli, pos 18 ∷ pos 7 ∷ [])
    ∷ (pos 0x90, (ok (c_jr (pos 1))), cjr, pos 1 ∷ [])
    ∷ []

-- P appends an entry; an encoder that raises ends the function.
unfoldable pub append_calls : List (ℤ × Result ℤ × Kind × List ℤ) → Result (List Entry)
append_calls [] = ok []
append_calls ((addr, encoded, kind, args) ∷ rest) = do
  word ← encoded
  entries ← append_calls rest
  ok (record { addr = addr; word = word; kind = kind; args = args } ∷ entries)

-- regs, after the assignments to single registers
abbrev pub start_regs : List ℤ
start_regs =
    pos 0
    ∷ pos 0x1C
    ∷ pos 12
    ∷ pos 17
    ∷ pos 12
    ∷ pos 48
    ∷ pos 0x14
    ∷ pos 0x1C
    ∷ pos 0
    ∷ pos 0
    ∷ pos 5
    ∷ pos 5
    ∷ pos 5
    ∷ pos 0xAA
    ∷ pos 5
    ∷ pos 0
    ∷ pos 0
    ∷ pos 0
    ∷ pos 0
    ∷ pos 0
    ∷ pos 0
    ∷ pos 0
    ∷ pos 0
    ∷ pos 0
    ∷ pos 0
    ∷ pos 0
    ∷ pos 0
    ∷ pos 0
    ∷ pos 0
    ∷ pos 0
    ∷ pos 0
    ∷ pos 0
    ∷ []

abbrev pub start_mem : List (ℤ × ℤ)
start_mem = (pos 0x100, pos 0x00050005) ∷ []

unfoldable pub build_program : Result (List Entry × List ℤ × List (ℤ × ℤ))
build_program = do prog ← append_calls calls; ok (prog, start_regs, start_mem)

-- What `main` computes before it prints: the program and the table.
unfoldable pub main : Result (List Entry × List Retire)
main = do
  (prog, regs, mem) ← build_program
  (ret, last) ← emulate prog regs mem (pos 0x54) (pos 19) (pos 29)
  if length ret == 29 then ok (prog, ret) else err assertion_error
