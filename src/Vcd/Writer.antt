-- ===== src/Vcd/Writer.antt =====
-- A VCD file as a description of a trace, the counterpart of the parser of
-- tools/sby_retire_stream.py: declarations, and blocks of changes at a time.
use riscv_vibecoded.Vcd.Parse.{Trace, stop, yield, snapshot, is_state, is_declared}
use riscv_vibecoded.Py.Int.{pos}
use riscv_vibecoded.Py.Dict.{get, put}
use riscv_vibecoded.Py.Text.{Text, text, text_eq, is_space, starts_with}
use riscv_vibecoded.Py.Text.Strip.{Each}
use riscv_vibecoded.Py.Text.Number.{numeral}
use riscv_vibecoded.Prelude.{
  ℕ, ◌+◌, ◌*◌, Bool, true, false, ◌||◌, ◌==◌, List, [], ◌∷◌, ◌++◌, map, All, ◌≡◌, ◌≢◌,
  if◌then◌else◌,
}

-- A declaration of a wire, or any other command.
pub data Header : Type 0 where
  var : (width : ℕ) (wire name : Text) → Header
  command : Text → Header

pub data Change : Type 0 where
  scalar : Bool → Text → Change
  vector : List Bool → Text → Change

pub record Block : Type 0 where
  pub time : ℕ
  pub changes : List Change

pub record File : Type 0 where
  pub headers : List Header
  pub blocks : List Block

abbrev pub bit : Bool → ℕ
bit false = b'0'
bit true = b'1'

abbrev pub write_header : Header → Text
write_header (var width wire name) =
    text "$var wire " ++ (numeral 10 width ++ (b' ' ∷ (wire ++ (b' ' ∷ (name ++ text " $end")))))
write_header (command s) = b'$' ∷ s

abbrev pub write_change : Change → Text
write_change (scalar b wire) = bit b ∷ wire
write_change (vector bs wire) = b'b' ∷ map bit bs ++ b' ' ∷ wire

abbrev pub block_lines : List Block → List Text
block_lines [] = []
block_lines (b ∷ bs) = (b'#' ∷ numeral 10 b.time) ∷ map write_change b.changes ++ block_lines bs

abbrev pub lines_of : File → List Text
lines_of f = map write_header f.headers ++ block_lines f.blocks

abbrev pub write_lines : List Text → Text
write_lines [] = []
write_lines (l ∷ ls) = l ++ b'\n' ∷ write_lines ls

abbrev pub write : File → Text
write f = write_lines (lines_of f)

-- An identifier: not empty, and without white space.
pub record IsName (s : Text) : Type 0 where
  pub ne_nil : s ≢ []
  pub solid : Each is_space false s

-- The end of a line.
abbrev pub ends_line : ℕ → Bool
ends_line c = c == b'\n' || c == b'\r'

-- Wires and names are identifiers; a command is one line, and declares nothing.
abbrev pub HeaderFits : Header → Type 0
HeaderFits (var width wire name) = IsName wire × IsName name
HeaderFits (command s) = (starts_with (b'$' ∷ s) (text "$var") ≡ false) × Each ends_line false s

-- Wires are identifiers, and a vector has a bit.
abbrev pub ChangeFits : Change → Type 0
ChangeFits (scalar b wire) = IsName wire
ChangeFits (vector bs wire) = (bs ≢ []) × IsName wire

pub record Fits (f : File) : Type 0 where
  pub headers : All HeaderFits f.headers
  pub changes : All (λ (b : Block). All ChangeFits b.changes) f.blocks

-- The names by wire, initial-state drivers left out; a later declaration of a wire replaces it.
unfoldable pub named : List (Text × Text) → List Header → List (Text × Text)
named names [] = names
named names (var width wire name ∷ hs) =
    named (if is_state name then put wire name names else names) hs
named names (command s ∷ hs) = named names hs

-- The number that bits stand for, the first the most significant.
abbrev pub number_of : ℕ → List Bool → ℕ
number_of n [] = n
number_of n (b ∷ bs) = number_of (n * 2 + (if b then 1 else 0)) bs

abbrev pub wire_of : Change → Text
wire_of (scalar b wire) = wire
wire_of (vector bs wire) = wire

abbrev pub value_of : Change → ℕ
value_of (scalar b wire) = if b then 1 else 0
value_of (vector bs wire) = number_of 0 bs

-- The values after changes, of the wires that have a name.
unfoldable pub changed : List (Text × Text) → List (Text × ℕ) → List Change → List (Text × ℕ)
changed names vals [] = vals
changed names vals (c ∷ cs) =
    changed names
      (if is_declared (get (wire_of c) names) then put (wire_of c) (value_of c) vals else vals) cs

-- One snapshot for each block, at its time and of the values after its changes.
unfoldable pub snapshots : List (Text × Text) → List (Text × ℕ) → List Block → Trace
snapshots names vals [] = stop
snapshots names vals (b ∷ bs) =
    let after = changed names vals b.changes in
    yield (pos b.time) (snapshot names after) (snapshots names after bs)
