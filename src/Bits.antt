-- ===== src/Bits.antt =====
-- `|` of bit fields and `&` with a mask of low bits, as arithmetic on natural numbers.
pub mod Digit
pub mod Window
use Digit.{bit_or_digit, bit_and_digit}
use native.Mathlib.Nat
use native.Mathlib.Nat.{pow-suc, pow-succ', one-le-pow, div-add-mod, div-add-mod', mod-lt}
use native.Mathlib.Nat.{mod-eq_of_lt, add-mul-mod_self_left, div-div-eq-div-mul}
use mathlib.Core.Path.{◌≡⟨◌⟩◌, ◌∎}
use Prim.Native.Nat.{bit_or-bitwise}
use riscv_vibecoded.Prelude.{
  ℕ, zero, suc, ◌+◌, ◌-◌, ◌*◌, ◌/◌, ◌%◌, ◌^◌, ◌≤◌, ◌<◌, max, bit_and, bit_or,
}
use riscv_vibecoded.Prelude.{◌≡◌, refl, ap, sym, ◌∙◌, arith}

bit_or-zero_below : (n a : ℕ) → a ≤ n → bit_or a 0 ≡ a
bit_or-zero_below n zero h = refl
bit_or-zero_below zero (suc a) h = absurd (omega arith)
bit_or-zero_below (suc n) (suc a) h =
    omega (arith, bit_or_digit (suc a) 0, bit_or-zero_below n (suc a / 2) (omega arith))

pub bit_or-zero : (a : ℕ) → bit_or a 0 ≡ a
bit_or-zero a = bit_or-zero_below a a (omega arith)

zero-bit_or : (a : ℕ) → bit_or 0 a ≡ a
zero-bit_or a = bit_or-bitwise 0 a

bit_and-zero_below : (n a : ℕ) → a ≤ n → bit_and a 0 ≡ 0
bit_and-zero_below n zero h = refl
bit_and-zero_below zero (suc a) h = absurd (omega arith)
bit_and-zero_below (suc n) (suc a) h =
    omega (arith, bit_and_digit (suc a) 0, bit_and-zero_below n (suc a / 2) (omega arith))

two-pow-suc : (q k : ℕ) → q * 2 ^ suc k ≡ 2 * (q * 2 ^ k)
two-pow-suc q k = omega (arith, ap (λ (t : ℕ). q * t) (pow-suc 2 k))

-- A multiple of 2 ^ w has no bit below w, where a smaller value is added.
half_double : (v k : ℕ) → v * 2 ^ suc k / 2 ≡ v * 2 ^ k
half_double v k = omega (arith, two-pow-suc v k)

half_mask : (k : ℕ) → (2 ^ suc k - 1) / 2 ≡ 2 ^ k - 1
half_mask k = omega (arith, pow-suc 2 k, one-le-pow k 2 (omega arith))

mod_double : (a m : ℕ) → 0 < m → a % (2 * m) ≡ a / 2 % m * 2 + a % 2
mod_double a m h =
    let high : ℕ = a / 2 / m in
    let low : ℕ = a / 2 % m * 2 + a % 2 in
    let below : a / 2 % m < m = mod-lt (a / 2) h in
    let split : a ≡ low + 2 * m * high = omega (arith, div-add-mod (a / 2) m) in
    a % (2 * m)
    ≡⟨ ap (λ (t : ℕ). t % (2 * m)) split ⟩ (low + 2 * m * high) % (2 * m)
    ≡⟨ add-mul-mod_self_left low (2 * m) high ⟩ low % (2 * m)
    ≡⟨ mod-eq_of_lt (omega arith) ⟩ low ∎

or_multiple : (w q v : ℕ) → v < 2 ^ w → bit_or (q * 2 ^ w) v ≡ q * 2 ^ w + v
or_multiple zero q v l = ground (arith, bit_or-zero q)
or_multiple (suc w) q v l = ground (
  arith,
  bit_or_digit (q * 2 ^ suc w) v,
  two-pow-suc q w,
  pow-suc 2 w,
  or_multiple w q (v / 2) (omega (arith, pow-suc 2 w)),
)

pub or_low : (w a v : ℕ) → a % 2 ^ w ≡ 0 → v < 2 ^ w → bit_or a v ≡ a + v
or_low w a v h l =
    let split : a ≡ a / 2 ^ w * 2 ^ w = omega (arith, div-add-mod' a (2 ^ w)) in
    rw split (or_multiple w (a / 2 ^ w) v l)

-- With the bits k .. k + w - 1 of `a` clear, a field of w bits is added there.
pub or_field :
    (k w a v : ℕ) → a / 2 ^ k % 2 ^ w ≡ 0 → v < 2 ^ w → bit_or a (v * 2 ^ k) ≡ a + v * 2 ^ k
or_field zero w a v h l = rw (Nat.mul-one v) (or_low w a v (rw (Nat.div-one a) at h) l)
or_field (suc k) w a v h l =
    let halved : a / 2 / 2 ^ k % 2 ^ w ≡ 0 = rw (div-div-eq-div-mul, ← pow-succ') h in
    omega (
      arith,
      bit_or_digit a (v * 2 ^ suc k),
      two-pow-suc v k,
      or_field k w (a / 2) v halved l,
      ap (λ (t : ℕ). bit_or (a / 2) t) (half_double v k),
    )

-- A mask of k low bits is the remainder by 2 ^ k.
pub bit_and_mask : (k a : ℕ) → bit_and a (2 ^ k - 1) ≡ a % 2 ^ k
bit_and_mask zero a = ground (arith, bit_and-zero_below a a (omega arith))
bit_and_mask (suc k) a = omega (
  arith,
  bit_and_digit a (2 ^ suc k - 1),
  pow-suc 2 k,
  one-le-pow k 2 (omega arith),
  mod_double a (2 ^ k) (one-le-pow k 2 (omega arith)),
  bit_and_mask k (a / 2),
  ap (λ (t : ℕ). bit_and (a / 2) t) (half_mask k),
  ap (λ (t : ℕ). a % t) (pow-succ' 2 k),
)

bit_or-half : (a b : ℕ) → bit_or a b / 2 ≡ bit_or (a / 2) (b / 2)
bit_or-half a b = omega (arith, bit_or_digit a b)

bit_or-mod_two : (a b : ℕ) → bit_or a b % 2 ≡ max (a % 2) (b % 2)
bit_or-mod_two a b = omega (arith, bit_or_digit a b)

bit_or_assoc_below : (n a b c : ℕ) → a ≤ n → bit_or (bit_or a b) c ≡ bit_or a (bit_or b c)
bit_or_assoc_below n zero b c h =
    ap (λ (t : ℕ). bit_or t c) (zero-bit_or b) ∙ sym (zero-bit_or (bit_or b c))
bit_or_assoc_below zero (suc a) b c h = absurd (omega arith)
bit_or_assoc_below (suc n) (suc a) b c h =
    let a' : ℕ = suc a in
    omega (
      arith,
      bit_or_digit (bit_or a' b) c,
      bit_or_digit a' (bit_or b c),
      bit_or-mod_two a' b,
      bit_or-mod_two b c,
      ap (λ (t : ℕ). bit_or t (c / 2)) (bit_or-half a' b),
      ap (λ (t : ℕ). bit_or (a' / 2) t) (bit_or-half b c),
      bit_or_assoc_below n (a' / 2) (b / 2) (c / 2) (omega arith),
    )

pub bit_or_assoc : (a b c : ℕ) → bit_or (bit_or a b) c ≡ bit_or a (bit_or b c)
bit_or_assoc a b c = bit_or_assoc_below a a b c (omega arith)

-- A mask whose low bits are clear.
pub bit_and_shifted : (k m a : ℕ) → bit_and a (m * 2 ^ k) ≡ bit_and (a / 2 ^ k) m * 2 ^ k
bit_and_shifted zero m a = ground arith
bit_and_shifted (suc k) m a =
    let halved : a / 2 / 2 ^ k ≡ a / 2 ^ suc k = rw (div-div-eq-div-mul, ← pow-succ') refl in
    omega (
      arith,
      bit_and_digit a (m * 2 ^ suc k),
      two-pow-suc m k,
      bit_and_shifted k m (a / 2),
      two-pow-suc (bit_and (a / 2 ^ suc k) m) k,
      ap (λ (t : ℕ). bit_and (a / 2) t) (half_double m k),
      ap (λ (t : ℕ). bit_and t m) halved,
      ap (λ (t : ℕ). bit_and t m * 2 ^ k) halved,
      pow-suc 2 k,
    )
