-- ===== src/Emulator/Alu.antt =====
-- tools/gen_expected.py, `m32` and `arith`.
use riscv_vibecoded.Py.Int.{
  ℤ, pos, negsuc, ◌+ℤ◌, ◌-ℤ◌, ◌&ℤ◌, ◌|ℤ◌, ◌^ℤ◌, ◌<<ℤ◌, ◌>>ℤ◌, ltb_ℤ, eqb_ℤ,
}
use riscv_vibecoded.Py.Error.{Result, ok, err, value_error, key_error, ◌>>=◌}
use riscv_vibecoded.Prelude.{if◌then◌else◌}

unfoldable pub m32 : ℤ → ℤ
m32 v = v &ℤ pos 0xFFFFFFFF

-- a << b and a >> b for a count that is not a constant: a negative count is a ValueError.
unfoldable pub shift_left : ℤ → ℤ → Result ℤ
shift_left a (pos b) = ok (a <<ℤ b)
shift_left a (negsuc b) = err value_error

unfoldable pub shift_right : ℤ → ℤ → Result ℤ
shift_right a (pos b) = ok (a >>ℤ b)
shift_right a (negsuc b) = err value_error

-- The keys of the table in `arith`, and any other.
pub data Op : Type 0 where
  add sub xor or and sll srl sra unknown : Op

-- (((a >> b) & 0x7FFFFFFF) | (0xFFFFFFFF << (32 - b)))
unfoldable pub sign_filled : ℤ → ℤ → Result ℤ
unfolding shift_left shift_right
sign_filled a b = do
  low ← shift_right a b
  high ← shift_left (pos 0xFFFFFFFF) (pos 32 -ℤ b)
  ok (low &ℤ pos 0x7FFFFFFF |ℤ high)

unfoldable pub arith_op : Op → ℤ → ℤ → Result ℤ
arith_op add a b = ok (m32 (a +ℤ b))
arith_op sub a b = ok (m32 (a -ℤ b))
arith_op xor a b = ok (a ^ℤ b)
arith_op or a b = ok (a |ℤ b)
arith_op and a b = ok (a &ℤ b)
arith_op sll a b = do shifted ← shift_left a b; ok (m32 shifted)
arith_op srl a b = shift_right a b
arith_op sra a b =
    if ltb_ℤ a (pos 0x80000000)
    then shift_right a b
    else if eqb_ℤ b (pos 0)
    then ok a
    else sign_filled a b
arith_op unknown a b = err key_error
