-- ===== src/Py/Output.antt =====
-- What a Python program does that a caller can see: it prints a line and goes on, ends with an exit
-- status, or raises.
use riscv_vibecoded.Py.Error.{Error, Result, ok, err}
use riscv_vibecoded.Py.Text.{Text}
use riscv_vibecoded.Prelude.{ℕ, List, [], ◌∷◌}

pub data Output : Type 0 where
  exit : ℕ → Output
  raised : Error → Output
  prints : Text → Output → Output

abbrev pub print_all : List Text → Output → Output
print_all [] rest = rest
print_all (l ∷ ls) rest = prints l (print_all ls rest)

-- The program goes on with a value, or raises.
abbrev pub or_raise {ℓ} : {A : Type ℓ} → Result A → (A → Output) → Output
or_raise (ok x) next = next x
or_raise (err e) next = raised e
