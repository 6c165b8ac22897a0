-- ===== src/Vcd/Unknown.antt =====
-- tools/sby_retire_stream.py: a vector with an unknown bit.
use riscv_vibecoded.Vcd.Line.{is_bit}
use riscv_vibecoded.Vcd.Parse.{Parser, Trace, raise, take_line, set_vector, is_declared}
use riscv_vibecoded.Vcd.Writer.{IsName}
use riscv_vibecoded.Vcd.RoundTrip.Steps.{match_vector-bits}
use riscv_vibecoded.Py.Dict.{get}
use riscv_vibecoded.Py.Error.{err, value_error}
use riscv_vibecoded.Py.Text.{Text, text_eq, starts_with}
use riscv_vibecoded.Py.Text.Strip.{Each}
use riscv_vibecoded.Py.Text.Number.{binary_onto}
use riscv_vibecoded.Prelude.{
  ℕ, ◌+◌, ◌-◌, ◌*◌, Bool, true, false, not, ◌||◌, ◌==◌, [], ◌∷◌, ◌++◌, Bool-cases, inl, inr, ◌≡◌,
  ◌≢◌, refl, arith,
}

-- A digit that is neither 0 nor 1.
abbrev pub has_unknown : Text → Bool
has_unknown [] = false
has_unknown (c ∷ s) = not (c == b'0' || c == b'1') || has_unknown s

binary_onto-has_unknown :
    (n : ℕ) (bits : Text) → has_unknown bits ≡ true → binary_onto n bits ≡ err value_error
unfolding binary_onto
binary_onto-has_unknown n [] h = ground arith
binary_onto-has_unknown n (c ∷ s) h = elim (Bool-cases (c == b'0' || c == b'1')) [
  | inl binary ↦
      rw binary (binary_onto-has_unknown (n * 2 + (c - b'0')) s (ground (arith, h, binary)))
  | inr other ↦ rw other refl
]

-- For a line that sets a declared wire to a vector of the characters 01xXzZ, one of which is not 0 or 1:
-- the generator raises ValueError at this line, whatever its state and whatever follows.
pub take_line-has_unknown :
    (p : Parser) (rest : Parser → Trace) (bits wire : Text)
    → bits ≢ []
    → Each is_bit true bits
    → has_unknown bits ≡ true
    → IsName wire
    → is_declared (get wire p.instances) ≡ true
    → take_line p (b'b' ∷ bits ++ b' ' ∷ wire) rest ≡ raise value_error
unfolding take_line starts_with set_vector
take_line-has_unknown p rest bits wire hb each unknown hw declared =
    rw (match_vector-bits bits wire hb each hw, declared, binary_onto-has_unknown 0 bits unknown)
      refl
