-- ===== src/Vcd/Parse.antt =====
-- tools/sby_retire_stream.py: `parse_vcd` and `snapshot`.
use riscv_vibecoded.Vcd.{Signals, base_name}
use riscv_vibecoded.Vcd.Line.{match_var, match_vector, is_bit}
use riscv_vibecoded.Py.Int.{ℤ}
use riscv_vibecoded.Py.Dict.{get, put}
use riscv_vibecoded.Py.Error.{Error, Result, ok, err, ◌>>=◌}
use riscv_vibecoded.Py.Text.{Text, text, text_eq, starts_with, rstrip, push_head}
use riscv_vibecoded.Py.Text.Lines.{is_newline}
use riscv_vibecoded.Py.Text.Number.{int_of, binary_onto}
use riscv_vibecoded.Prelude.{
  ℕ, Bool, true, false, not, ◌&&◌, ◌||◌, ◌==◌, List, [], ◌∷◌, ◌++◌, Option, none, some,
  if◌then◌else◌,
}

-- The variables of `parse_vcd`: wire id -> full name, wire id -> value, and the time of the last
-- `#` line.
pub record Parser : Type 0 where
  pub instances : List (Text × Text)
  pub vals : List (Text × ℕ)
  pub last_t : Option ℤ

abbrev pub initial : Parser
initial = record { instances = []; vals = []; last_t = none }

abbrev pub or_empty : Option (List (Option ℕ)) → List (Option ℕ)
or_empty none = []
or_empty (some vs) = vs

-- out.setdefault(k, []).append(v)
unfoldable pub append_value : Text → Option ℕ → Signals → Signals
append_value k v out = put k (or_empty (get k out) ++ v ∷ []) out

unfoldable pub snapshot_onto : Signals → List (Text × Text) → List (Text × ℕ) → Signals
unfolding append_value
snapshot_onto out [] vals = out
snapshot_onto out ((wire, name) ∷ instances) vals =
    snapshot_onto (append_value (base_name name) (get wire vals) out) instances vals

unfoldable pub snapshot : List (Text × Text) → List (Text × ℕ) → Signals
snapshot = snapshot_onto []

-- What the generator does next: it yields a snapshot and goes on, it stops, or it raises.
pub data Trace : Type 0 where
  stop : Trace
  raise : Error → Trace
  yield : ℤ → Signals → Trace → Trace

-- `if last_t is not None: yield last_t, snapshot(instances, vals)`
unfoldable pub yield_last : Parser → Option ℤ → Trace → Trace
yield_last p none rest = rest
yield_last p (some t) rest = yield t (snapshot p.instances p.vals) rest

-- A name that is no initial-state driver.
unfoldable pub is_state : Text → Bool
is_state name = not (starts_with name (text "anyinit_"))

unfoldable pub declare : Parser → Option (Text × Text) → Parser
unfolding is_state
declare p none = p
declare p (some (wire, name)) =
    if is_state name then record p { instances = put wire name p.instances } else p

abbrev pub is_declared : Option Text → Bool
is_declared none = false
is_declared (some name) = true

unfoldable pub set_vector : Parser → Option (Text × Text) → Result Parser
set_vector p none = ok p
set_vector p (some (bits, wire)) =
    if is_declared (get wire p.instances)
    then (do v ← binary_onto 0 bits; ok (record p { vals = put wire v p.vals }))
    else ok p

unfoldable pub set_scalar : Parser → Text → Parser
unfolding is_bit
set_scalar p [] = p
set_scalar p (c ∷ []) = p
set_scalar p (c ∷ d ∷ wire) =
    if is_bit c && is_declared (get (d ∷ wire) p.instances)
    then record p { vals = put (d ∷ wire) (if c == b'1' then 1 else 0) p.vals }
    else p

abbrev pub drop_one : Text → Text
drop_one [] = []
drop_one (c ∷ s) = s

abbrev pub go_on : Result Parser → (Parser → Trace) → Trace
go_on (ok p) rest = rest p
go_on (err e) rest = raise e

-- int(line[1:]), the new `last_t`
unfoldable pub set_time : Parser → Text → Result Parser
set_time p line = do t ← int_of (drop_one line); ok (record p { last_t = some t })

-- One round of the loop, on a line without its newline, and the rounds after it.
unfoldable pub take_line : Parser → Text → (Parser → Trace) → Trace
unfolding yield_last declare set_vector set_scalar set_time
take_line p line rest =
    if starts_with line (text "$var")
    then rest (declare p (match_var line))
    else if starts_with line (text "#")
    then yield_last p p.last_t (go_on (set_time p line) rest)
    else if starts_with line (text "b")
    then go_on (set_vector p (match_vector line)) rest
    else rest (set_scalar p line)

unfoldable pub parse_lines : Parser → List Text → Trace
unfolding take_line yield_last
parse_lines p [] = yield_last p p.last_t stop
parse_lines p (line ∷ lines) = take_line p (rstrip is_newline line) (λ q. parse_lines q lines)

-- The lines of a file opened as text, each with its newline: `\r\n` and `\r` are newlines too.
unfoldable pub file_lines : Bool → Text → List Text
file_lines returned [] = []
file_lines returned (c ∷ s) =
    let skip = file_lines false s in
    let cut = (b'\n' ∷ []) ∷ file_lines (c == b'\r') s in
    if returned && c == b'\n'
    then skip
    else if c == b'\n' || c == b'\r'
    then cut
    else push_head c (file_lines false s)

-- `parse_vcd`, of what the file holds
unfoldable pub parse_vcd : Text → Trace
parse_vcd content = parse_lines initial (file_lines false content)
