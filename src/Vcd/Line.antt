-- ===== src/Vcd/Line.antt =====
-- tools/sby_retire_stream.py: the two regular expressions.
use riscv_vibecoded.Py.Text.{Text, text, after_prefix, is_word, is_digit, is_space, not_space}
use riscv_vibecoded.Py.Text.Match.{some_of, ◌>>=◌}
use riscv_vibecoded.Prelude.{ℕ, Bool, ◌||◌, ◌==◌, Option, some}

-- \$var (\w+) (\d+) (\S+) (\S+) at the start of a line: groups 3 and 4
unfoldable pub match_var : Text → Option (Text × Text)
match_var line = do
  after_var ← after_prefix line (text "$var ")
  (type, s1) ← some_of is_word after_var
  s2 ← after_prefix s1 (text " ")
  (width, s3) ← some_of is_digit s2
  s4 ← after_prefix s3 (text " ")
  (wire, s5) ← some_of not_space s4
  s6 ← after_prefix s5 (text " ")
  (name, s7) ← some_of not_space s6
  some (wire, name)

-- [01xXzZ]
unfoldable pub is_bit : ℕ → Bool
is_bit c = c == b'0' || c == b'1' || c == b'x' || c == b'X' || c == b'z' || c == b'Z'

-- b([01xXzZ]+)\s+(\S+) at the start of a line: groups 1 and 2
unfoldable pub match_vector : Text → Option (Text × Text)
unfolding is_bit
match_vector line = do
  s1 ← after_prefix line (text "b")
  (bits, s2) ← some_of is_bit s1
  (blank, s3) ← some_of is_space s2
  (wire, s4) ← some_of not_space s3
  some (bits, wire)
