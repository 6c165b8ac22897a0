-- ===== src/Py/Text/Number.antt =====
-- Numerals: int(s), int(s, 2), str(n) and f"{n:x}".
pub mod RoundTrip
pub mod Field
use riscv_vibecoded.Py.Int.{ℤ, pos, negsuc}
use riscv_vibecoded.Py.Error.{Result, ok, err, value_error}
use riscv_vibecoded.Py.Text.{Text, is_digit, is_space, rstrip, lstrip}
use riscv_vibecoded.Prelude.{
  ℕ, zero, suc, ◌+◌, ◌-◌, ◌*◌, ◌/◌, ◌%◌, Bool, true, false, ◌&&◌, List, [], ◌∷◌, ◌++◌, ◌==◌, ◌||◌,
  ltb, length, if◌then◌else◌, Option, none, some,
}

-- Digits with single underscores between them; the flag says that the last character is a digit.
unfoldable pub decimal_onto : ℕ → Bool → Text → Option ℕ
unfolding is_digit
decimal_onto n last [] = if last then some n else none
decimal_onto n last (c ∷ s) =
    let digit = decimal_onto (n * 10 + (c - b'0')) true s in
    let underscore = decimal_onto n false s in
    if is_digit c then digit else if c == b'_' && last then underscore else none

abbrev or_value_error : Option ℤ → Result ℤ
or_value_error none = err value_error
or_value_error (some n) = ok n

abbrev negate : ℕ → ℤ
negate zero = pos 0
negate (suc n) = negsuc n

abbrev map_option {ℓ κ} : {A : Type ℓ} {B : Type κ} → (A → B) → Option A → Option B
map_option f none = none
map_option f (some a) = some (f a)

signed_decimal : Text → Option ℤ
unfolding decimal_onto
signed_decimal [] = none
signed_decimal (c ∷ s) =
    if c == b'-'
    then map_option negate (decimal_onto 0 false s)
    else if c == b'+'
    then map_option pos (decimal_onto 0 false s)
    else map_option pos (decimal_onto 0 false (c ∷ s))

-- int(s)
unfoldable pub int_of : Text → Result ℤ
unfolding signed_decimal
int_of s = or_value_error (signed_decimal (lstrip is_space (rstrip is_space s)))

-- int(s, 2), for a text of the characters 01xXzZ
unfoldable pub binary_onto : ℕ → Text → Result ℕ
binary_onto n [] = ok n
binary_onto n (c ∷ s) =
    let next = binary_onto (n * 2 + (c - b'0')) s in
    if c == b'0' || c == b'1' then next else err value_error

-- The digit of a number below 36, and the digits of a number.
unfoldable pub digit : ℕ → ℕ
digit n = if ltb n 10 then b'0' + n else b'a' + (n - 10)

unfoldable pub numeral_fuel : ℕ → ℕ → ℕ → Text
numeral_fuel base zero n = []
numeral_fuel base (suc fuel) n =
    let higher = numeral_fuel base fuel (n / base) in
    if ltb n base then digit n ∷ [] else higher ++ digit (n % base) ∷ []

-- In a base of 2 .. 36; a number divides at most as often as it is large.
unfoldable pub numeral : ℕ → ℕ → Text
numeral base n = numeral_fuel base (suc n) n

-- str(n)
unfoldable pub str_of : ℤ → Text
str_of (pos n) = numeral 10 n
str_of (negsuc n) = b'-' ∷ numeral 10 (suc n)

-- k characters in front of a text that is shorter than a width.
abbrev pub fill : ℕ → ℕ → Text → Text
fill c zero s = s
fill c (suc k) s = c ∷ fill c k s

-- "%0wx" % n, for a width of w; "%x" is a width of 0
unfoldable pub hex_field : ℕ → ℤ → Text
hex_field w (pos n) = fill b'0' (w - length (numeral 16 n)) (numeral 16 n)
hex_field w (negsuc n) = b'-' ∷ fill b'0' (w - 1 - length (numeral 16 (suc n))) (numeral 16 (suc n))
