-- ===== src/Py/Text/Number/Field.antt =====
-- Fields of hexadecimal digits, filled with zeros to a width.
use riscv_vibecoded.Py.Int.{pos}
use riscv_vibecoded.Py.Text.{Text}
use riscv_vibecoded.Py.Text.Number.{digit, numeral_fuel, numeral, fill, hex_field}
use riscv_vibecoded.Py.Text.Number.RoundTrip.{value_onto, value_onto-hexadecimal}
use native.Mathlib.Nat.{pow-suc}
use riscv_vibecoded.Prelude.{
  ℕ, zero, suc, ◌+◌, ◌-◌, ◌/◌, ◌%◌, ◌^◌, ◌<◌, ◌≤◌, [], ◌∷◌, ◌++◌, length, ltb, true, Bool-cases,
  inl, inr, ◌≡◌, refl, ap, ◌∙◌, arith,
}

length-append_one : (s : Text) (c : ℕ) → length (s ++ c ∷ []) ≡ suc (length s)
length-append_one [] c = refl
length-append_one (d ∷ s) c = ap suc (length-append_one s c)

one_digit : (n : ℕ) → n < 16 → ltb n 16 ≡ true
one_digit n h = ground arith

fewer : (k n : ℕ) → n < 16 ^ suc (suc k) → n / 16 < 16 ^ suc k
fewer k n h = omega (arith, pow-suc 16 (suc k))

-- A number below 16^(k + 1) has at most k + 1 digits.
length-numeral_fuel : (fuel k n : ℕ) → n < 16 ^ suc k → length (numeral_fuel 16 fuel n) ≤ suc k
unfolding numeral_fuel
length-numeral_fuel zero k n h = omega arith
length-numeral_fuel (suc fuel) zero n h = rw (one_digit n (omega arith)) (omega arith)
length-numeral_fuel (suc fuel) (suc k) n h = elim (Bool-cases (ltb n 16)) [
  | inl small ↦ rw small (omega arith)
  | inr large ↦
      rw (large, length-append_one (numeral_fuel 16 fuel (n / 16)) (digit (n % 16)))
        (omega (arith, length-numeral_fuel fuel k (n / 16) (fewer k n h)))
]

length-fill : (c k : ℕ) (s : Text) → length (fill c k s) ≡ k + length s
length-fill c zero s = omega arith
length-fill c (suc k) s = omega (arith, length-fill c k s)

value_onto-fill : (k : ℕ) (s : Text) → value_onto 16 0 (fill b'0' k s) ≡ value_onto 16 0 s
value_onto-fill zero s = refl
value_onto-fill (suc k) s = value_onto-fill k s

-- The field of a number that has at most w digits, w at least 1: it is w characters wide, and its digits
-- are those of the number.
pub hex_field_lem :
    (k n : ℕ)
    → n < 16 ^ suc k
    → (length (hex_field (suc k) (pos n)) ≡ suc k)
      × (value_onto 16 0 (hex_field (suc k) (pos n)) ≡ n)
unfolding hex_field numeral
hex_field_lem k n h =
    let s : Text = numeral_fuel 16 (suc n) n in
    let missing = suc k - length s in
    (
      omega (arith, length-fill b'0' missing s, length-numeral_fuel (suc n) k n h),
      value_onto-fill missing s ∙ value_onto-hexadecimal (suc n) n (omega arith),
    )
