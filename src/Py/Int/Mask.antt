-- ===== src/Py/Int/Mask.antt =====
-- Masks and fields of an `int`, as remainders. Every field that the scripts take out of a number
-- lies below bit 32, so it is a field of the number's low 32 bits.
use native.Mathlib.Nat.{one-le-pow, div-one}
use riscv_vibecoded.Bits.{bit_and_mask}
use riscv_vibecoded.Bits.Window.{pow_add, window_mod, window_complement}
use riscv_vibecoded.Prelude.{
  ◌∙◌, sym, ℕ, ◌+◌, ◌-◌, ◌*◌, ◌/◌, ◌%◌, ◌^◌, ◌≤◌, ◌<◌, ◌≡◌, ◌⊎◌, ap, arith,
}
use riscv_vibecoded.Py.Int.{ℤ, pos, negsuc, ◌&ℤ◌, ◌>>ℤ◌, ◌<<ℤ◌, ◌%ℤ◌, ◌≤ℤ◌}

-- x & (2 ^ k - 1) is the remainder by 2 ^ k.
pub and_mask : (k : ℕ) (x : ℤ) → (x &ℤ pos (2 ^ k - 1)) ≡ pos (x %ℤ 2 ^ k)
unfolding ◌&ℤ◌ ◌%ℤ◌
and_mask k (pos n) = ap pos (bit_and_mask k n)
and_mask k (negsuc n) = ap (λ (t : ℕ). pos (2 ^ k - 1 - t)) (bit_and_mask k n)

-- The low 32 bits.
abbrev pub low32 : ℤ → ℕ
low32 x = x %ℤ 2 ^ 32

pub low32-lt : (x : ℤ) → low32 x < 2 ^ 32
unfolding ◌%ℤ◌
low32-lt (pos n) = omega arith
low32-lt (negsuc n) = omega arith

two_pow_32 : (k w : ℕ) → k + w ≤ 32 → 2 ^ 32 ≡ 2 ^ k * 2 ^ w * 2 ^ (32 - (k + w))
two_pow_32 k w h =
    ap (λ (t : ℕ). 2 ^ t) (whole k w h)
    ∙ pow_add (k + w) (32 - (k + w))
    ∙ ap (λ (t : ℕ). t * 2 ^ (32 - (k + w))) (pow_add k w)
  where
    whole : (k w : ℕ) → k + w ≤ 32 → 32 ≡ k + w + (32 - (k + w))
    whole k w h = omega arith

-- Bits k .. k + w - 1 of x, with k + w ≤ 32.
pub field_low32 : (k w : ℕ) (x : ℤ) → k + w ≤ 32 → (x >>ℤ k) %ℤ 2 ^ w ≡ low32 x / 2 ^ k % 2 ^ w
unfolding ◌%ℤ◌ ◌>>ℤ◌
field_low32 k w (pos n) h =
    let r : ℕ = 32 - (k + w) in
    let positive = λ (m : ℕ). one-le-pow m 2 (omega arith) in
    sym (rw (two_pow_32 k w h) (window_mod (2 ^ k) (2 ^ w) (2 ^ r) n (positive k)))
field_low32 k w (negsuc n) h =
    let r : ℕ = 32 - (k + w) in
    let positive = λ (m : ℕ). one-le-pow m 2 (omega arith) in
    sym (
      ap (λ (t : ℕ). (t - 1 - n % t) / 2 ^ k % 2 ^ w) (two_pow_32 k w h)
      ∙ window_complement (2 ^ k) (2 ^ w) (2 ^ r) n (positive k) (positive w) (positive r))

-- ((x >> k) & (2 ^ w - 1)) << s
pub field_shifted :
    (k w s : ℕ) (x : ℤ)
    → k + w ≤ 32
    → (x >>ℤ k &ℤ pos (2 ^ w - 1)) <<ℤ s ≡ pos (low32 x / 2 ^ k % 2 ^ w * 2 ^ s)
unfolding ◌<<ℤ◌
field_shifted k w s x h = rw and_mask (rw (field_low32 k w x h))

shift_zero : (x : ℤ) → x >>ℤ 0 ≡ x
unfolding ◌>>ℤ◌
shift_zero (pos n) = ap pos (omega arith)
shift_zero (negsuc n) = ap negsuc (omega arith)

low_low32 : (w : ℕ) (x : ℤ) → w ≤ 32 → x %ℤ 2 ^ w ≡ low32 x % 2 ^ w
low_low32 w x h =
    ap (λ (y : ℤ). y %ℤ 2 ^ w) (sym (shift_zero x))
    ∙ field_low32 0 w x (omega arith)
    ∙ ap (λ (t : ℕ). t % 2 ^ w) (div-one (low32 x))

-- (x & (2 ^ w - 1)) << s
pub low_shifted :
    (w s : ℕ) (x : ℤ) → w ≤ 32 → (x &ℤ pos (2 ^ w - 1)) <<ℤ s ≡ pos (low32 x % 2 ^ w * 2 ^ s)
unfolding ◌<<ℤ◌
low_shifted w s x h = rw and_mask (rw (low_low32 w x h))

-- A number of -m .. m - 1 has the word of m's two halves: below m, or at most m below 2 ^ 32.
pub low32_signed :
    (m : ℕ) (x : ℤ)
    → 0 < m
    → m ≤ 2 ^ 31
    → negsuc (m - 1) ≤ℤ x
    → x ≤ℤ pos (m - 1)
    → (low32 x < m) ⊎ (2 ^ 32 ≤ low32 x + m)
unfolding ◌%ℤ◌
low32_signed m (pos n) hm big low high = omega arith
low32_signed m (negsuc n) hm big low high = omega arith

-- The word of a number has the number's remainder by a smaller power of two.
pub low32_mod : (w : ℕ) (x : ℤ) → w ≤ 32 → low32 x % 2 ^ w ≡ x %ℤ 2 ^ w
low32_mod w x h = sym (low_low32 w x h)
