-- ===== src/Py/Text/Number/RoundTrip.antt =====
-- Reading back what str(n) and f"{n:x}" give.
use riscv_vibecoded.Py.Int.{pos}
use riscv_vibecoded.Py.Error.{ok}
use riscv_vibecoded.Py.Text.{Text, is_digit, is_space}
use riscv_vibecoded.Py.Text.Strip.{Each, rstrip_none, lstrip_none}
use riscv_vibecoded.Py.Text.Number.{
  decimal_onto, signed_decimal, int_of, digit, numeral_fuel, numeral,
}
use riscv_vibecoded.Prelude.{
  ℕ, zero, suc, ◌+◌, ◌-◌, ◌*◌, ◌/◌, ◌%◌, ◌<◌, Bool, true, false, [], ◌∷◌, ◌++◌, ltb, if◌then◌else◌,
  some, All-append, Bool-cases, inl, inr, ◌≡◌, ◌≢◌, refl, sym, ap, ◌∙◌, arith,
}
use mathlib.Core.List.{append_assoc, append-nil}

numeral_fuel-digits : (fuel n : ℕ) → Each is_digit true (numeral_fuel 10 fuel n)
unfolding numeral_fuel
numeral_fuel-digits zero n = tt
numeral_fuel-digits (suc fuel) n = elim (Bool-cases (ltb n 10)) [
  | inl small ↦ rw small (unfold is_digit digit in ground arith, tt)
  | inr large ↦ rw large (
      All-append (λ (c : ℕ). is_digit c ≡ true) (numeral_fuel 10 fuel (n / 10))
        (digit (n % 10) ∷ []) (numeral_fuel-digits fuel (n / 10))
        (unfold is_digit digit in ground arith, tt))
]

pub numeral-digits : (n : ℕ) → Each is_digit true (numeral 10 n)
unfolding numeral
numeral-digits n = numeral_fuel-digits (suc n) n

append-ne-nil : (s : Text) (c : ℕ) → s ++ c ∷ [] ≢ []
append-ne-nil [] c e = ground arith
append-ne-nil (d ∷ s) c e = ground arith

pub numeral-ne-nil : (n : ℕ) → numeral 10 n ≢ []
unfolding numeral numeral_fuel
numeral-ne-nil n = elim (Bool-cases (ltb n 10)) [
  | inl small ↦ rw small (λ e. ground arith)
  | inr large ↦ rw large (append-ne-nil (numeral_fuel 10 n (n / 10)) (digit (n % 10)))
]

decimal_onto-digit :
    (m d : ℕ) (flag : Bool) (rest : Text)
    → d < 10
    → decimal_onto m flag (digit d ∷ rest) ≡ decimal_onto (m * 10 + d) true rest
decimal_onto-digit m d flag rest h =
    let is : is_digit (digit d) ≡ true = unfold is_digit digit in ground arith in
    let value : m * 10 + (digit d - b'0') ≡ m * 10 + d = unfold digit in ground arith in
    unfold decimal_onto in rw (is, value) refl

decimal_onto-numeral :
    (fuel n : ℕ) (flag : Bool) (rest : Text)
    → n < fuel
    → decimal_onto 0 flag (numeral_fuel 10 fuel n ++ rest) ≡ decimal_onto n true rest
unfolding numeral_fuel
decimal_onto-numeral zero n flag rest h = absurd (omega arith)
decimal_onto-numeral (suc fuel) n flag rest h = elim (Bool-cases (ltb n 10)) [
  | inl small ↦ rw small (
      decimal_onto-digit 0 n flag rest (ground arith)
      ∙ ap (λ (t : ℕ). decimal_onto t true rest) (omega arith))
  | inr large ↦ rw large (
      ap (decimal_onto 0 flag)
        (append_assoc (numeral_fuel 10 fuel (n / 10)) (digit (n % 10) ∷ []) rest)
      ∙ decimal_onto-numeral fuel (n / 10) flag (digit (n % 10) ∷ rest) (ground arith)
      ∙ decimal_onto-digit (n / 10) (n % 10) true rest (omega arith)
      ∙ ap (λ (t : ℕ). decimal_onto t true rest) (omega arith))
]

signed_decimal-digits :
    (s : Text) (n : ℕ)
    → Each is_digit true s
    → decimal_onto 0 false s ≡ some n
    → signed_decimal s ≡ some (pos n)
unfolding signed_decimal
signed_decimal-digits [] n h e = unfold decimal_onto in ground arith
signed_decimal-digits (c ∷ s) n h e = rw e (unfold is_digit in ground (arith, h.0))

digit-not_space : (s : Text) → Each is_digit true s → Each is_space false s
digit-not_space [] h = tt
digit-not_space (c ∷ s) h = (unfold is_digit is_space in ground (arith, h.0), digit-not_space s h.1)

-- int(str(n)) is n.
pub int_of-numeral : (n : ℕ) → int_of (numeral 10 n) ≡ ok (pos n)
unfolding int_of numeral
int_of-numeral n =
    let digits = numeral_fuel-digits (suc n) n in
    let s : Text = numeral_fuel 10 (suc n) n in
    let solid = digit-not_space s digits in
    let whole : decimal_onto 0 false s ≡ some n =
      ap (decimal_onto 0 false) (sym (append-nil s))
      ∙ decimal_onto-numeral (suc n) n false [] (omega arith)
      ∙ unfold decimal_onto in refl in
    rw
      (
        rstrip_none is_space s solid,
        lstrip_none is_space s solid,
        signed_decimal-digits s n digits whole,
      )
      refl

-- Reading the digits of any base up to 36.
abbrev pub digit_value : ℕ → ℕ
digit_value c = if ltb c b'a' then c - b'0' else c - b'a' + 10

abbrev pub value_onto : ℕ → ℕ → Text → ℕ
value_onto base n [] = n
value_onto base n (c ∷ s) = value_onto base (n * base + digit_value c) s

value_onto-append :
    (base n : ℕ) (s t : Text) → value_onto base n (s ++ t) ≡ value_onto base (value_onto base n s) t
value_onto-append base n [] t = refl
value_onto-append base n (c ∷ s) t = value_onto-append base (n * base + digit_value c) s t

digit_value-digit : (d : ℕ) → d < 36 → digit_value (digit d) ≡ d
unfolding digit
digit_value-digit d h = ground arith

pub value_onto-hexadecimal : (fuel n : ℕ) → n < fuel → value_onto 16 0 (numeral_fuel 16 fuel n) ≡ n
unfolding numeral_fuel
value_onto-hexadecimal zero n h = absurd (omega arith)
value_onto-hexadecimal (suc fuel) n h = elim (Bool-cases (ltb n 16)) [
  | inl small ↦ rw small (omega (arith, digit_value-digit n (ground arith)))
  | inr large ↦ rw large (
      value_onto-append 16 0 (numeral_fuel 16 fuel (n / 16)) (digit (n % 16) ∷ [])
      ∙ omega (
        arith,
        value_onto-hexadecimal fuel (n / 16) (ground arith),
        digit_value-digit (n % 16) (omega arith),
      ))
]

-- Different numbers have different hexadecimal numerals.
pub numeral_hexadecimal_inj : (m n : ℕ) → numeral 16 m ≡ numeral 16 n → m ≡ n
unfolding numeral
numeral_hexadecimal_inj m n e =
    sym (value_onto-hexadecimal (suc m) m (omega arith))
    ∙ ap (value_onto 16 0) e
    ∙ value_onto-hexadecimal (suc n) n (omega arith)
