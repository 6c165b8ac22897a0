-- ===== src/Vcd.antt =====
-- tools/sby_retire_stream.py: the signals of a VCD trace, and a report of the instructions retired.
pub mod Line
pub mod Parse
pub mod Report
pub mod Writer
pub mod RoundTrip
pub mod Snapshot
pub mod Unknown
use riscv_vibecoded.Py.Int.{ℤ}
use riscv_vibecoded.Py.Text.{Text, text, split}
use riscv_vibecoded.Py.Text.Number.{numeral}
use riscv_vibecoded.Prelude.{ℕ, List, [], ◌∷◌, ◌++◌, Option, none, some}

-- Base name -> the values of its instances, in the order of their declarations; `none` is Python's
-- None, for a wire without a value so far.
abbrev pub Signals : Type 0
Signals = List (Text × List (Option ℕ))

-- xs[-1], of a list that is never empty
abbrev last_of : List Text → Text
last_of [] = []
last_of (s ∷ []) = s
last_of (s ∷ t ∷ ss) = last_of (t ∷ ss)

unfoldable pub base_name : Text → Text
base_name name = last_of (split b'.' name)

-- `fmt`, of the values that there are: numbers and None
unfoldable pub fmt : Option ℕ → Text
fmt none = text "?"
fmt (some v) = text "0x" ++ numeral 16 v
