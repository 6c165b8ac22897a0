-- ===== src/Emulator/Bounds/Words.antt =====
-- 32-bit words, and the operations that keep them.
use Prim.Native.Nat.{differ}
use riscv_vibecoded.Emulator.Alu.{m32, shift_right}
use riscv_vibecoded.Emulator.Simulation.{m32_lem}
use riscv_vibecoded.Bits.Digit.{bit_or_digit, bit_and_digit, bit_xor_digit}
use riscv_vibecoded.Py.Int.{ℤ, pos, negsuc, ◌&ℤ◌, ◌|ℤ◌, ◌^ℤ◌, ◌>>ℤ◌}
use riscv_vibecoded.Py.Int.Mask.{low32-lt}
use riscv_vibecoded.Py.Error.{ok}
use native.Mathlib.Nat.{pow-suc}
use riscv_vibecoded.Prelude.{
  ℕ, zero, suc, ◌/◌, ◌%◌, ◌^◌, ◌<◌, ◌≤◌, ltb, bit_and, bit_or, bit_xor, Bool, true, false, ◌≡◌,
  arith,
}

abbrev pub is_word_value : ℤ → Bool
is_word_value (pos n) = ltb n (2 ^ 32)
is_word_value (negsuc n) = false

abbrev pub IsWord : ℤ → Type 0
IsWord v = is_word_value v ≡ true

zero_only : (a : ℕ) → a < 2 ^ 0 → a ≡ 0
zero_only a h = omega arith

pub bit_and-lt : (k a b : ℕ) → a < 2 ^ k → b < 2 ^ k → bit_and a b < 2 ^ k
bit_and-lt zero a b ha hb = rw (zero_only a ha, zero_only b hb) (omega arith)
bit_and-lt (suc k) a b ha hb =
    let rest =
      bit_and-lt k (a / 2) (b / 2) (omega (arith, pow-suc 2 k)) (omega (arith, pow-suc 2 k)) in
    omega (arith, bit_and_digit a b, pow-suc 2 k, rest)

pub div-lt : (a b : ℕ) → a / b ≤ a
div-lt a b = omega arith

pub m32-IsWord : (v : ℤ) → IsWord (m32 v)
m32-IsWord v = rw (m32_lem v) (ground (arith, low32-lt v))

pub bit_or-lt : (k a b : ℕ) → a < 2 ^ k → b < 2 ^ k → bit_or a b < 2 ^ k
bit_or-lt zero a b ha hb = rw (zero_only a ha, zero_only b hb) (omega arith)
bit_or-lt (suc k) a b ha hb =
    let rest =
      bit_or-lt k (a / 2) (b / 2) (omega (arith, pow-suc 2 k)) (omega (arith, pow-suc 2 k)) in
    omega (arith, bit_or_digit a b, pow-suc 2 k, rest)

differ-lt : (x y : ℕ) → x < 2 → y < 2 → differ x y < 2
differ-lt zero y hx hy = hy
differ-lt (suc x) zero hx hy = hx
differ-lt (suc x) (suc y) hx hy = differ-lt x y (omega arith) (omega arith)

pub bit_xor-lt : (k a b : ℕ) → a < 2 ^ k → b < 2 ^ k → bit_xor a b < 2 ^ k
bit_xor-lt zero a b ha hb = rw (zero_only a ha, zero_only b hb) (omega arith)
bit_xor-lt (suc k) a b ha hb =
    let rest =
      bit_xor-lt k (a / 2) (b / 2) (omega (arith, pow-suc 2 k)) (omega (arith, pow-suc 2 k)) in
    omega (
      arith,
      bit_xor_digit a b,
      pow-suc 2 k,
      rest,
      differ-lt (a % 2) (b % 2) (omega arith) (omega arith),
    )

pub and-IsWord : (x y : ℤ) → IsWord x → IsWord y → IsWord (x &ℤ y)
unfolding ◌&ℤ◌
and-IsWord (pos a) (pos b) ha hb = ground (arith, bit_and-lt 32 a b (ground arith) (ground arith))
and-IsWord (negsuc a) y ha hb = ground arith
and-IsWord (pos a) (negsuc b) ha hb = ground arith

pub or-IsWord : (x y : ℤ) → IsWord x → IsWord y → IsWord (x |ℤ y)
unfolding ◌|ℤ◌
or-IsWord (pos a) (pos b) ha hb = ground (arith, bit_or-lt 32 a b (ground arith) (ground arith))
or-IsWord (negsuc a) y ha hb = ground arith
or-IsWord (pos a) (negsuc b) ha hb = ground arith

pub xor-IsWord : (x y : ℤ) → IsWord x → IsWord y → IsWord (x ^ℤ y)
unfolding ◌^ℤ◌
xor-IsWord (pos a) (pos b) ha hb = ground (arith, bit_xor-lt 32 a b (ground arith) (ground arith))
xor-IsWord (negsuc a) y ha hb = ground arith
xor-IsWord (pos a) (negsuc b) ha hb = ground arith

pub shift_right-IsWord : (x y v : ℤ) → IsWord x → shift_right x y ≡ ok v → IsWord v
unfolding shift_right ◌>>ℤ◌
shift_right-IsWord (pos a) (pos b) v hx h = ground (arith, div-lt a (2 ^ b))
shift_right-IsWord (negsuc a) y v hx h = ground arith
shift_right-IsWord (pos a) (negsuc b) v hx h = ground arith
