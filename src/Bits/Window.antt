-- ===== src/Bits/Window.antt =====
-- Windows of bits under a remainder and under the complement, for factors of any size.
use native.Mathlib.Nat
use native.Mathlib.Nat.{mul-add-div, mul-add-mod_self_left, div-add-mod, mod-lt, div-eq_of_lt}
use native.Mathlib.Nat.{mod-eq_of_lt, pow-suc, mul_assoc, div-lt_iff_lt-mul, mul_comm}
use riscv_vibecoded.Prelude.{
  ℕ, zero, suc, ◌+◌, ◌-◌, ◌*◌, ◌/◌, ◌%◌, ◌^◌, ◌<◌, ◌≡◌, sym, ap, ◌∙◌, arith,
}

pub pow_add : (m n : ℕ) → 2 ^ (m + n) ≡ 2 ^ m * 2 ^ n
pow_add m zero = rw Nat.add-zero (omega arith)
pow_add m (suc n) = omega (
  arith,
  pow_add m n,
  pow-suc 2 n,
  pow-suc 2 (m + n),
  ap (λ (t : ℕ). 2 ^ t) (add_suc m n),
  ap (λ (t : ℕ). 2 ^ m * t) (pow-suc 2 n),
)
  where
    add_suc : (m n : ℕ) → m + suc n ≡ suc (m + n)
    add_suc m n = omega arith

pub window_mod : (p q r n : ℕ) → 0 < p → n % (p * q * r) / p % q ≡ n / p % q
window_mod p q r n hp =
    let t : ℕ = n % (p * q * r) in
    let c : ℕ = n / (p * q * r) in
    let split : n ≡ p * (q * (r * c)) + t = omega (arith, div-add-mod n (p * q * r)) in
    sym (
      ap (λ (u : ℕ). u / p % q) split
      ∙ ap (λ (u : ℕ). u % q) (mul-add-div hp (q * (r * c)) t)
      ∙ mul-add-mod_self_left q (r * c) (t / p))

-- p * s - 1 - t split by p: the complement of the quotient, and that of the remainder.
complement_split :
    (p s t : ℕ) → 0 < p → t < p * s → p * s - 1 - t ≡ p * (s - 1 - t / p) + (p - 1 - t % p)
complement_split p s t hp h =
    let below : t / p < s = (div-lt_iff_lt-mul hp).1 (rw (mul_comm s p) h) in
    let inner : t % p < p = mod-lt t hp in
    let rest : ℕ = s - 1 - t / p in
    let whole : s ≡ t / p + 1 + rest = omega arith in
    omega (arith, div-add-mod t p, ap (λ (u : ℕ). p * u) whole)

complement_div : (p s t : ℕ) → 0 < p → t < p * s → (p * s - 1 - t) / p ≡ s - 1 - t / p
complement_div p s t hp h =
    let high : ℕ = s - 1 - t / p in
    let low : ℕ = p - 1 - t % p in
    let small : low / p ≡ 0 = div-eq_of_lt (omega arith) in
    ap (λ (u : ℕ). u / p) (complement_split p s t hp h)
    ∙ mul-add-div hp high low
    ∙ omega (arith, small)

complement_mod : (q r a : ℕ) → 0 < q → a < q * r → (q * r - 1 - a) % q ≡ q - 1 - a % q
complement_mod q r a hq h =
    let high : ℕ = r - 1 - a / q in
    let low : ℕ = q - 1 - a % q in
    ap (λ (u : ℕ). u % q) (complement_split q r a hq h)
    ∙ mul-add-mod_self_left q high low
    ∙ mod-eq_of_lt (omega arith)

-- A window of the complement is the complement of the window.
pub window_complement :
    (p q r n : ℕ)
    → 0 < p
    → 0 < q
    → 0 < r
    → (p * q * r - 1 - n % (p * q * r)) / p % q ≡ q - 1 - n / p % q
window_complement p q r n hp hq hr =
    let t : ℕ = n % (p * q * r) in
    let room : 0 < p * q * r = grind arith in
    let low : t < p * q * r = mod-lt n room in
    let low' : t < p * (q * r) = omega arith in
    let quotient : t / p < q * r = (div-lt_iff_lt-mul hp).1 (omega arith) in
    ap (λ (u : ℕ). (u - 1 - t) / p % q) (mul_assoc p q r)
    ∙ ap (λ (u : ℕ). u % q) (complement_div p (q * r) t hp low')
    ∙ complement_mod q r (t / p) hq quotient
    ∙ ap (λ (u : ℕ). q - 1 - u) (window_mod p q r n hp)
