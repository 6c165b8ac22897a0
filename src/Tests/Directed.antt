-- ===== src/Tests/Directed.antt =====
-- Examples of the directed program of tools/gen_expected.py and of its preload words.
use riscv_vibecoded.Emulator.{Entry, Retire, addi, cswsp, clwsp}
use riscv_vibecoded.Emulator.Preload.{preload, fills_word}
use riscv_vibecoded.Emulator.Preload.Words.{word_at}
use riscv_vibecoded.Emulator.Preload.Layout.{Placed, half, laid, preload_layout}
use riscv_vibecoded.Emulator.Program.{main, build_program, append_calls}
use riscv_vibecoded.Py.Text.{Text}
use riscv_vibecoded.Emulator.Run.{pc_map, step, run, emulate}
use riscv_vibecoded.Emulator.Step.{dispatch, blank, commit, write_register, write_memory}
use riscv_vibecoded.Emulator.Alu.{m32, shift_left, shift_right, sign_filled, arith_op}
use riscv_vibecoded.Encoder.{mask32}
use riscv_vibecoded.Encoder.Base
use riscv_vibecoded.Encoder.Base.{itype}
use riscv_vibecoded.Encoder.Compressed.{
  c_li, c_add, c_sub, c_slli, c_andi, c_mv, c_beqz, c_bnez, c_swsp, c_lwsp, c_lw, c_sw, c_addi,
  c_srai, c_xor, c_or, c_and, c_srli, c_jal, c_jr, spn, ci_imm, c_cr, c_shift, c_alu, c_cb_imm,
  c_cj_imm, c_cl_imm,
}
use riscv_vibecoded.Py.Int.{ℤ, pos, ◌+ℤ◌, ◌-ℤ◌, ◌&ℤ◌, ◌|ℤ◌, ◌^ℤ◌, ◌<<ℤ◌, ◌>>ℤ◌}
use riscv_vibecoded.Py.Error.{Result, ok, err}
use riscv_vibecoded.Py.Equality.{int_eq}
use riscv_vibecoded.Py.Dict.{get, put, at}
use riscv_vibecoded.Py.Seq.{item, set_item}
use riscv_vibecoded.Prelude.{All, ℕ, List, [], ◌∷◌, length, ◌≡◌, refl, arith}

abbrev sizes : Result (List Entry × List Retire) → ℕ × ℕ
sizes (ok (prog, ret)) = (length prog, length ret)
sizes (err e) = (0, 0)

-- The program has 28 entries, and its run gives the 29 rows that `main` asserts.
main-sizes : sizes main ≡ (28, 29)
unfolding main build_program append_calls emulate run step pc_map dispatch blank commit
    write_register write_memory m32 shift_left shift_right sign_filled arith_op mask32 Base.lui
    itype c_li c_add c_sub c_slli c_andi c_mv c_beqz c_bnez c_swsp c_lwsp c_lw c_sw c_addi c_srai
    c_xor c_or c_and c_srli c_jal c_jr spn ci_imm c_cr c_shift c_alu c_cb_imm c_cj_imm c_cl_imm get
    put at item set_item ◌+ℤ◌ ◌-ℤ◌ ◌&ℤ◌ ◌|ℤ◌ ◌^ℤ◌ ◌<<ℤ◌ ◌>>ℤ◌
main-sizes = refl

-- addi x3, x1, 7 at 4; c.swsp x3, 0 at 8; c.lwsp x10, 0 at 10
abbrev code : List Entry
code =
    record { addr = pos 4; word = pos 0x00708193; kind = addi; args = [] }
    ∷ record { addr = pos 8; word = pos 0xC00E; kind = cswsp; args = [] }
    ∷ record { addr = pos 10; word = pos 0x4502; kind = clwsp; args = [] }
    ∷ []

code-Placed : All Placed code
unfolding fills_word
code-Placed = (
  record {
    place = 4;
    code = 0x00708193;
    at_place = refl;
    is_code = refl;
    fits = omega arith;
    fitting = refl;
  },
  (
    record {
      place = 8;
      code = 0xC00E;
      at_place = refl;
      is_code = refl;
      fits = omega arith;
      fitting = refl;
    },
    (
      record {
        place = 10;
        code = 0x4502;
        at_place = refl;
        is_code = refl;
        fits = omega arith;
        fitting = refl;
      },
      tt,
    ),
  ),
)

preload_layout_example :
    (d : List (ℤ × ℤ)) × (preload code [] ≡ ok d) × (half 10 (word_at d (pos 2)) ≡ laid code 10 0)
preload_layout_example = preload_layout code 10 code-Placed refl

high_half : laid code 6 0 ≡ 0x70
unfolding fills_word
high_half = refl
