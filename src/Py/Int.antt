-- ===== src/Py/Int.antt =====
-- Python's unbounded `int`: `negsuc n` is -(n + 1), in two's complement the complement of `n`.
-- The bit operations are those of two's complement with infinitely many sign bits.
pub mod Mask
use riscv_vibecoded.Prelude.{
  ℕ, zero, suc, ◌+◌, ◌-◌, ◌*◌, ◌/◌, ◌%◌, ◌^◌, ◌≤◌, ◌<◌, bit_and, bit_or, bit_xor, Bool, true, false,
  ◌≡◌, refl, arith, leb, ltb, ◌==◌, if◌then◌else◌,
}

pub data ℤ : Type 0 where
  pos : ℕ → ℤ
  negsuc : ℕ → ℤ

abbrev pub pos_part : ℤ → ℕ
pos_part (pos n) = n
pos_part (negsuc n) = 0

abbrev pub neg_part : ℤ → ℕ
neg_part (pos n) = 0
neg_part (negsuc n) = suc n

-- a - b, as an integer.
abbrev pub sub_ℕ : ℕ → ℕ → ℤ
sub_ℕ a b = if leb b a then pos (a - b) else negsuc (b - a - 1)

infixl 65 ◌+ℤ◌ ◌-ℤ◌
infix 50 ◌≤ℤ◌
unfoldable pub ◌+ℤ◌ : ℤ → ℤ → ℤ
a +ℤ b = sub_ℕ (pos_part a + pos_part b) (neg_part a + neg_part b)

unfoldable pub ◌-ℤ◌ : ℤ → ℤ → ℤ
a -ℤ b = sub_ℕ (pos_part a + neg_part b) (neg_part a + pos_part b)

abbrev pub ◌≤ℤ◌ : ℤ → ℤ → Type 0
a ≤ℤ b = pos_part a + neg_part b ≤ pos_part b + neg_part a

abbrev pub ltb_ℤ : ℤ → ℤ → Bool
ltb_ℤ a b = ltb (pos_part a + neg_part b) (pos_part b + neg_part a)

abbrev pub leb_ℤ : ℤ → ℤ → Bool
leb_ℤ a b = leb (pos_part a + neg_part b) (pos_part b + neg_part a)

abbrev pub eqb_ℤ : ℤ → ℤ → Bool
eqb_ℤ a b = pos_part a + neg_part b == pos_part b + neg_part a

infixl 75 ◌<<ℤ◌ ◌>>ℤ◌
infixl 60 ◌&ℤ◌
infixl 58 ◌^ℤ◌
infixl 56 ◌|ℤ◌
-- x << k and x >> k; the right shift rounds towards minus infinity.
unfoldable pub ◌<<ℤ◌ : ℤ → ℕ → ℤ
pos n <<ℤ k = pos (n * 2 ^ k)
negsuc n <<ℤ k = negsuc ((n + 1) * 2 ^ k - 1)

unfoldable pub ◌>>ℤ◌ : ℤ → ℕ → ℤ
pos n >>ℤ k = pos (n / 2 ^ k)
negsuc n >>ℤ k = negsuc (n / 2 ^ k)

-- On ℕ, `b - bit_and b a` is b with the bits of a cleared.
unfoldable pub ◌&ℤ◌ : ℤ → ℤ → ℤ
pos a &ℤ pos b = pos (bit_and a b)
pos a &ℤ negsuc b = pos (a - bit_and a b)
negsuc a &ℤ pos b = pos (b - bit_and a b)
negsuc a &ℤ negsuc b = negsuc (bit_or a b)

unfoldable pub ◌|ℤ◌ : ℤ → ℤ → ℤ
pos a |ℤ pos b = pos (bit_or a b)
pos a |ℤ negsuc b = negsuc (b - bit_and a b)
negsuc a |ℤ pos b = negsuc (a - bit_and a b)
negsuc a |ℤ negsuc b = negsuc (bit_and a b)

unfoldable pub ◌^ℤ◌ : ℤ → ℤ → ℤ
pos a ^ℤ pos b = pos (bit_xor a b)
pos a ^ℤ negsuc b = negsuc (bit_xor a b)
negsuc a ^ℤ pos b = negsuc (bit_xor a b)
negsuc a ^ℤ negsuc b = pos (bit_xor a b)

-- The remainder that lies in 0 .. m - 1, also of a negative number.
unfoldable pub ◌%ℤ◌ : ℤ → ℕ → ℕ
pos n %ℤ m = n % m
negsuc n %ℤ m = m - 1 - n % m

infixl 70 ◌%ℤ◌
minus_four_masked : negsuc 3 &ℤ pos 0xFFFFFFFF ≡ pos 0xFFFFFFFC
unfolding ◌&ℤ◌
minus_four_masked = refl

shifted_down : negsuc 3 >>ℤ 1 ≡ negsuc 1
unfolding ◌>>ℤ◌
shifted_down = refl
