-- ===== src/Tests/Emulation.antt =====
-- Examples of the emulator of tools/gen_expected.py.
use riscv_vibecoded.Emulator.{Entry, Retire, State, Kind, addi, cswsp, clwsp, csrai}
use riscv_vibecoded.Emulator.Alu.{m32}
use riscv_vibecoded.Emulator.Step.{dispatch, blank, commit, write_register, write_memory}
use riscv_vibecoded.Emulator.Step.Rows.{destination}
use riscv_vibecoded.Emulator.Run.{pc_map, step, run, emulate}
use riscv_vibecoded.Emulator.Run.Trace.{Chained}
use riscv_vibecoded.Emulator.Run.Reads.{Writes, last_write, last_store}
use riscv_vibecoded.Emulator.Table.{emulate-Chained, emulate_reads_rs1, emulate_reads_memory}
use riscv_vibecoded.Emulator.Shift.{csrai_overflow}
use riscv_vibecoded.Emulator.Stops.{emulate_leaves_program}
use riscv_vibecoded.Py.Int.{ℤ, pos, ◌+ℤ◌, ◌&ℤ◌}
use riscv_vibecoded.Py.Error.{ok, err, key_error}
use riscv_vibecoded.Py.Equality.{int_eq}
use riscv_vibecoded.Py.Dict.{get, put, at}
use riscv_vibecoded.Py.Seq.{item, set_item}
use riscv_vibecoded.Prelude.{
  All, ℕ, zero, suc, ◌+◌, ◌-◌, ◌/◌, ◌%◌, ◌^◌, ◌≤◌, List, [], ◌∷◌, ◌++◌, length, some, ◌≡◌, ◌≢◌,
  refl, arith,
}

abbrev entry : ℕ → ℕ → Kind → List ℤ → Entry
entry addr word kind args = record { addr = pos addr; word = pos word; kind = kind; args = args }

-- addi x1, x0, 5; addi x3, x1, 7; c.swsp x3, 0; c.lwsp x10, 0
abbrev pub program : List Entry
program =
    entry 0 0x00500093 addi (pos 1 ∷ pos 0 ∷ pos 5 ∷ [])
    ∷ entry 4 0x00708193 addi (pos 3 ∷ pos 1 ∷ pos 7 ∷ [])
    ∷ entry 8 0xC00E cswsp (pos 3 ∷ pos 0 ∷ [])
    ∷ entry 10 0x4502 clwsp (pos 10 ∷ pos 0 ∷ [])
    ∷ []

abbrev pub zeros : ℕ → List ℤ
zeros zero = []
zeros (suc n) = pos 0 ∷ zeros n

-- x2 points to a word of memory.
abbrev pub registers : List ℤ
registers = pos 0 ∷ pos 0 ∷ pos 0x100 ∷ zeros 29

abbrev pub memory : List (ℤ × ℤ)
memory = (pos 0x100, pos 0xDEADBEEF) ∷ []

abbrev pub row0 : Retire
row0 = record {
  w = pos 0x00500093;
  pc = pos 0;
  pcw = pos 4;
  r1a = pos 0;
  r1d = pos 0;
  r2a = pos 0;
  r2d = pos 0;
  rda = pos 1;
  rdw = pos 5;
  ma = pos 0;
  rm = pos 0;
  wm = pos 0;
  mrd = pos 0;
  mwd = pos 0;
}

abbrev pub row1 : Retire
row1 = record {
  w = pos 0x00708193;
  pc = pos 4;
  pcw = pos 8;
  r1a = pos 1;
  r1d = pos 5;
  r2a = pos 0;
  r2d = pos 0;
  rda = pos 3;
  rdw = pos 12;
  ma = pos 0;
  rm = pos 0;
  wm = pos 0;
  mrd = pos 0;
  mwd = pos 0;
}

abbrev row2 : Retire
row2 = record {
  w = pos 0xC00E;
  pc = pos 8;
  pcw = pos 10;
  r1a = pos 2;
  r1d = pos 0x100;
  r2a = pos 3;
  r2d = pos 12;
  rda = pos 0;
  rdw = pos 0;
  ma = pos 0x100;
  rm = pos 0;
  wm = pos 15;
  mrd = pos 0;
  mwd = pos 12;
}

abbrev row3 : Retire
row3 = record {
  w = pos 0x4502;
  pc = pos 10;
  pcw = pos 12;
  r1a = pos 2;
  r1d = pos 0x100;
  r2a = pos 0;
  r2d = pos 0;
  rda = pos 10;
  rdw = pos 12;
  ma = pos 0x100;
  rm = pos 15;
  wm = pos 0;
  mrd = pos 12;
  mwd = pos 0;
}

abbrev pub table : List Retire
table = row0 ∷ row1 ∷ row2 ∷ row3 ∷ []

abbrev pub end : State
end = record {
  regs =
      pos 0
      ∷ pos 5
      ∷ pos 0x100
      ∷ pos 12
      ∷ pos 0
      ∷ pos 0
      ∷ pos 0
      ∷ pos 0
      ∷ pos 0
      ∷ pos 0
      ∷ pos 12
      ∷ zeros 21;
  mem = (pos 0x100, pos 12) ∷ [];
  pc = pos 12;
}

pub run_of_program : emulate program registers memory (pos 0) (pos 0) (pos 4) ≡ ok (table, end)
unfolding emulate run step pc_map dispatch blank commit write_register write_memory get put at item
    set_item m32 ◌+ℤ◌ ◌&ℤ◌
run_of_program = refl

pub program-Writes : All Writes program
unfolding destination item
program-Writes = (
  (1, refl, omega arith),
  ((3, refl, omega arith), ((0, refl, omega arith), ((10, refl, omega arith), tt))),
)

pub x0-registers : item registers (pos 0) ≡ ok (pos 0)
unfolding item
x0-registers = refl

emulate-Chained_example : Chained (pos 0) table (pos 12) × (length table ≡ 4)
emulate-Chained_example =
    emulate-Chained program registers memory (pos 0) (pos 0) (pos 4) table end run_of_program

emulate_reads_rs1_example : pos 5 ≡ last_write 1 (pos 0) (row0 ∷ [])
unfolding item
emulate_reads_rs1_example =
    emulate_reads_rs1 program registers memory (pos 0) (pos 0) (pos 4) program-Writes x0-registers
      (row0 ∷ []) row1 (row2 ∷ row3 ∷ []) end run_of_program 1 (pos 0) refl refl

emulate_reads_memory_example :
    last_store (pos 0x100) (get (pos 0x100) memory) (row0 ∷ row1 ∷ row2 ∷ []) ≡ some (pos 12)
emulate_reads_memory_example =
    emulate_reads_memory program registers memory (pos 0) (pos 0) (pos 4) program-Writes
      x0-registers (row0 ∷ row1 ∷ row2 ∷ []) row3 [] end run_of_program reading
  where
    reading : pos 15 ≢ pos 0
    reading e = ground arith

-- x8 holds -4.
abbrev negative_state : State
negative_state = record { regs = zeros 8 ++ pos 0xFFFFFFFC ∷ zeros 23; mem = []; pc = pos 0 }

-- c.srai x8, 2
csrai_overflow_example :
    (r : Retire) × (dispatch csrai (pos 0x8409) (pos 8 ∷ pos 2 ∷ []) negative_state ≡ ok r)
    × (v : ℕ) × (r.rdw ≡ pos v)
    × (2 ^ 32 ≤ v)
    × (v % 2 ^ 32 ≡ 0xFFFFFFFC / 2 ^ 2 + (2 ^ 32 - 2 ^ 30))
unfolding item
csrai_overflow_example =
    csrai_overflow (pos 0x8409) negative_state 8 0xFFFFFFFC 2 refl (omega arith) (omega arith)
      (omega arith) (omega arith)

emulate_leaves_program_example :
    emulate program registers memory (pos 0) (pos 0) (pos 5) ≡ err key_error
emulate_leaves_program_example =
    emulate_leaves_program program registers memory (pos 0) (pos 0) 4 5 table end run_of_program
      (omega arith) outside
  where
    outside : All (λ e. e.addr ≢ pos 12) program
    outside = (λ e. ground arith, (λ e. ground arith, (λ e. ground arith, (λ e. ground arith, tt))))
