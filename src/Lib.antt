-- ===== src/Lib.antt =====
-- A RISC-V core and its tooling: the RTL of the core, the instruction encoders, the directed-test
-- emulator, the retire-stream extractor and the generators of the formal checks.
--
-- The program. rtl/core is a multi-cycle RV32IMC core: a decoder, an ALU, a load/store unit, a register
-- file, a CSR file and a fetch unit around the phases of rv32i_core.sv. tools/riscv_enc.py has one function per instruction, which puts the fields of that
-- instruction into a 32-bit or a 16-bit word. tools/gen_expected.py writes a directed program with
-- these encoders as entries (address, word, kind, arguments), runs it by the kinds and arguments
-- (not by the words), and prints the table of retirements that dv/p2/tb_core.sv expects from the
-- core. tools/sby_retire_stream.py reads the VCD file of a counterexample and prints the instructions
-- that the core retired. scripts/formal_m1_gen.py and scripts/formal_m2_gen.py stage the riscv-formal
-- generator in a directory of their own, run it, and rewrite the check files that it leaves. The last
-- three share no data with the first two but Python itself, which is Py here.
--
-- Numbers. Python's `int` is Py.Int.ℤ, whole numbers over ℕ with the bit operations of two's
-- complement, so that negative and overlarge arguments and intermediate values are those of the
-- source. Exceptions are the values of Py.Error; dictionaries and subscripts are Py.Dict and Py.Seq.
-- Strings are lists of code points, Py.Text, whose letters and digits are those of ASCII; Py.Text.Match
-- is what the code uses of regular expressions, Py.Text.Number are numerals. Py.Output is what a
-- program prints and how it ends.
--
-- Files and code:
--   Encoder           _mask32; Encoder.Base lines 32-108, Encoder.Compressed 124-359, Encoder.Mul
--                     366-411 and Encoder.Csr 418-466 of tools/riscv_enc.py, one definition per
--                     function, with its name less a leading underscore; Encoder.SelfCheck 469-489
--   Isa.Fields        the immediates of rtl/core/decoder.sv
--   Rtl.Pkg           the enumerations of rtl/core/up5k_rv_pkg.sv
--   Rtl.Decoder       the rest of rtl/core/decoder.sv: its outputs (Outputs), the 16-bit words
--                     (Compressed) and the 32-bit words (Base)
--   Rtl.Alu, Rtl.Lsu, Rtl.Regfile, Rtl.CsrFile, Rtl.Fetch
--                     alu.sv, lsu.sv, regfile.sv, csr_file.sv and fetch_unit.sv of rtl/core
--   Rtl.Core          rtl/core/rv32i_core.sv: State, Wires, Trap, Clock (one edge) and Outputs
--   Isa.Insn          the instruction formats, a decoder of RV32IMC_Zicsr words on these immediates
--                     (written from the instruction set, not a translation), and Encodes: a value is
--                     a word of n bytes that decodes to an instruction
--   Isa.Execute       what the instructions of the emulator's kinds do, written from the instruction
--                     set like the decoder
--   Emulator          the entries, the rows and the state of `emulate` in tools/gen_expected.py
--   Emulator.Alu      m32 and arith
--   Emulator.Step     the branches of the loop (dispatch) and what follows them (commit)
--   Emulator.Preload  the loop of `emit_sv` that builds the preload words
--   Emulator.Program  build_program, and what `main` computes
--   Emulator.Print    emit_sv and main: the printed lines
--   Emulator.Run      pc_map, one round (step), the loop (run) and emulate
--   Vcd               base_name and fmt of tools/sby_retire_stream.py
--   Vcd.Line          its two regular expressions
--   Vcd.Parse         parse_vcd and snapshot; what the generator yields is a Trace
--   Vcd.Report        main: a round of its loop (take_snapshot), the loop (report), the arguments
--   Vcd.Writer        VCD files as data, how they are written and what they describe (a counterpart of
--                     the parser, not a translation)
--   Formal            the constants that tell the two generators apart; Formal.M1 and Formal.M2 are
--                     scripts/formal_m1_gen.py and scripts/formal_m2_gen.py
--   Formal.Path       os.path.join
--   Formal.Rewrite    what becomes of the text of a check file
--   Formal.Generate   `main`, as the calls that it makes
-- Of the RTL, Rtl.Decoder.Action says what an instruction does on the side of the instruction set and
-- on that of the control signals, Base32 and Base16 beside it compare the two, Classes and Size are on
-- the flags; Rtl.Core.Schedule and Rtl.Core.Safety are on all states that edges reach from a reset,
-- with any memory; Rtl.Core.Stages, Rtl.Core.Retire and Rtl.Core.Effect follow one instruction through
-- the phases with a memory that answers in the cycle of the request, as the header of rv32i_core.sv
-- asks for. Of the children of Rtl.Core.Effect, Registers, Arithmetic and Reference compare the effect in the core with
-- Isa.Execute, Emulated a round of the emulator with the cycles of the core, and Programs a whole
-- emulation with the core that runs the program; Immediates and Quiet serve them. Meaning has the
-- values, conditions and targets of the instruction set, apart from the ALU, and Stores is on the bytes
-- that a store changes, with Rtl.Lsu.Bytes.
-- In Rtl.Core.Retire the words of the memory are fixed, but for Ram, Instruction and Reset, where a write
-- request changes them: a cycle of the core with its memory, one word, and a run from a reset.
-- Of the other children, Run is on any word, Traps on a word that traps, with the causes in
-- Cause, Returns on the return from a trap, and Access on the CSR instructions; Rtl.CsrFile.Access
-- reads a CSR after a write.
-- Rtl.Core.Widths is on the widths of all registers.
-- Words, Decoded and RoundTrip hold the proofs on encoders: the word that a function returns as a
-- sum of fields, what such a word decodes to, and both put together. Bits and Py.Int.Mask are the
-- arithmetic of fields and masks that they rest on. Emulator.Run.Trace and Emulator.Run.Reads follow
-- the loop; Emulator.Table, Emulator.Bounds, Emulator.Shift and Emulator.Stops say what its table
-- holds and how it fails; Emulator.Simulation compares a round, and its child
-- Emulator.Simulation.Machine a whole emulation, with Isa.Execute, and
-- Emulator.Preload.Layout the preload words with the program; Emulator.Print.Ends,
-- Emulator.Print.Words and Emulator.Print.Layout are on the printing. Vcd.RoundTrip, Vcd.Snapshot and Vcd.Unknown are on the VCD
-- parser, the children of Vcd.Report on the report, and Formal.Reset, Formal.ReadLine, Formal.Native and
-- Formal.Written on the generators. Tests has examples.
--
-- Bounds and fuel. An instruction's registers, functs and immediates are in the ranges that their
-- theorem names; outside them the source masks or overlaps fields, as the definitions do. The loop
-- `while len(ret) < max_retires` appends one row in every round or raises, so that the rounds left
-- are max_retires less the rows: `run` recurses on that number, and no fuel is needed. A negative
-- max_retires gives no round. A numeral (Py.Text.Number) has at most as many digits as the number plus
-- one, which is its fuel; the loops of the other scripts go through a list of lines, samples or files.
--
-- A word of the RTL is a number below the power of two of its width; sums and differences wrap by a
-- remainder. An instruction takes four edges, or five with a memory access, so that a run needs no
-- fuel but its number of edges.
--
-- Changes of state. An edge of the RTL maps the old registers to the new ones. `emulate` updates the caller's `regs` and `mem` in place; the model returns them,
-- with the program counter, beside the rows. After an exception they are not described.
--
-- Parameters. What a memory does with a write request is a function of the request and the words. The report is a function of the arguments, the docstring and the texts of the files that
-- there are; sys.argv's first element, the name of the program, is taken to be no option. A generator
-- is a function of the absolute path that os.path.abspath gives, the directory for temporary files, the
-- paths that are links, and the files that riscv-formal's genchecks.py leaves, in the order of their
-- names, if it succeeds; the other file operations are taken to succeed.
--
-- Not modelled: the limit of Python on the length of decimal numerals, letters and digits beyond ASCII,
-- the CSR part and the constants of the core's retirement channel, rtl/hello, the test benches, the
-- shell scripts, and third_party. Bits of the RTL are 0 or 1: there are no x or z.
mod Prelude
pub mod Bits
pub mod Py
pub mod Rtl
pub mod Encoder
pub mod Words
pub mod Emulator
pub mod Isa
pub mod Decoded
pub mod RoundTrip
pub mod Vcd
pub mod Formal
mod Tests
