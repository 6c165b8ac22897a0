-- ===== src/Tests/Vcd.antt =====
-- Examples of tools/sby_retire_stream.py.
use riscv_vibecoded.Vcd.{Signals, base_name}
use riscv_vibecoded.Vcd.Line.{match_var, match_vector, is_bit}
use riscv_vibecoded.Vcd.Parse.{
  Parser, Trace, stop, raise, yield, parse_vcd, parse_lines, file_lines, take_line, snapshot,
  snapshot_onto, append_value, yield_last, declare, set_vector, set_scalar, set_time, is_state,
}
use riscv_vibecoded.Vcd.Writer.{
  File, command, var, scalar, vector, IsName, Fits, write, named, snapshots,
}
use riscv_vibecoded.Vcd.RoundTrip.Parse.{parse_vcd-write}
use riscv_vibecoded.Vcd.Snapshot.{column, if_any, get-snapshot}
use riscv_vibecoded.Vcd.Unknown.{take_line-has_unknown}
use riscv_vibecoded.Vcd.Report.{nothing_seen, report, main, retire_line, detail_line}
use riscv_vibecoded.Py.Output.{print_all, exit}
use riscv_vibecoded.Vcd.Report.Reference.{
  lines, first_of_runs, retirements, ending, report-first_of_runs,
}
use riscv_vibecoded.Vcd.Report.Program.{main-write}
use riscv_vibecoded.Vcd.Report.Phases.{detailed, report-detailed}
use riscv_vibecoded.Py.Int.{pos}
use riscv_vibecoded.Py.Dict.{get, put}
use riscv_vibecoded.Py.Error.{value_error}
use riscv_vibecoded.Py.Text.{
  Text, text, text_eq, eq_text, starts_with, after_prefix, is_digit, is_word, is_space, run_of,
  rstrip, lstrip, split,
}
use riscv_vibecoded.Py.Text.Match.{some_of}
use riscv_vibecoded.Py.Text.Strip.{Each}
use riscv_vibecoded.Py.Text.Number.{int_of, decimal_onto, binary_onto}
use riscv_vibecoded.Prelude.{
  ℕ, true, false, List, [], ◌∷◌, ◌++◌, Option, none, some, ◌≡◌, ◌≢◌, refl, arith,
}

abbrev small : Text
small =
    text "$var wire 1 ! top.clk $end\n"
    ++ text "$var wire 4 n1 top.rvfi_order $end\r\n"
    ++ text "$var wire 4 n2 anyinit_x $end\n"
    ++ text "#0\n1!\nb0101 n1\nb1 n2\n#10\n0!\n#20\nbx1 n1\n"

small_trace :
    parse_vcd small
    ≡ yield (pos 0) ((text "clk", some 1 ∷ []) ∷ (text "rvfi_order", some 5 ∷ []) ∷ []) (
        yield
          (pos 10)
          ((text "clk", some 0 ∷ []) ∷ (text "rvfi_order", some 5 ∷ []) ∷ [])
          (raise value_error))
unfolding parse_vcd parse_lines file_lines take_line snapshot snapshot_onto append_value yield_last
    declare set_vector set_scalar set_time is_state base_name match_var match_vector some_of is_bit
    get put eq_text starts_with after_prefix is_digit is_word is_space run_of rstrip lstrip split
    int_of decimal_onto binary_onto
small_trace = refl

-- A file with a core signal, a checker's copy of it and an initial-state driver; two samples.
abbrev trace_file : File
trace_file = record {
  headers =
      command (text "scope module top $end")
      ∷ var 1 (text "!") (text "top.rvfi_valid")
      ∷ var 2 (text "n0") (text "top.rvfi_order")
      ∷ var 2 (text "n1") (text "anyinit_order")
      ∷ [];
  blocks =
      record {
        time = 0;
        changes = scalar true (text "!") ∷ vector (true ∷ false ∷ []) (text "n0") ∷ [];
      }
      ∷ record { time = 5; changes = [] }
      ∷ record { time = 10; changes = vector (true ∷ true ∷ []) (text "n0") ∷ [] }
      ∷ [];
}

text-IsName : (s : Text) → s ≢ [] → Each is_space false s → IsName s
text-IsName s ne h = record { ne_nil = ne; solid = h }

n0-IsName : IsName (text "n0")
n0-IsName = text-IsName (text "n0") (λ e. ground arith) (unfold is_space in (refl, (refl, tt)))

trace_file-Fits : Fits trace_file
trace_file-Fits = record {
  headers = (
    (
      unfold starts_with in refl,
      (
        refl,
        (
          refl,
          (
            refl,
            (
              refl,
              (
                refl,
                (
                  refl,
                  (
                    refl,
                    (
                      refl,
                      (
                        refl,
                        (
                          refl,
                          (
                            refl,
                            (
                              refl,
                              (
                                refl,
                                (refl, (refl, (refl, (refl, (refl, (refl, (refl, (refl, tt)))))))),
                              ),
                            ),
                          ),
                        ),
                      ),
                    ),
                  ),
                ),
              ),
            ),
          ),
        ),
      ),
    ),
    (
      (
        (text-IsName (text "!") (λ e. ground arith) (unfold is_space in (refl, tt))),
        text-IsName (text "top.rvfi_valid") (λ e. ground arith)
            (unfold is_space in
              (
                refl,
                (
                  refl,
                  (
                    refl,
                    (
                      refl,
                      (
                        refl,
                        (refl, (refl, (refl, (refl, (refl, (refl, (refl, (refl, (refl, tt))))))))),
                      ),
                    ),
                  ),
                ),
              )),
      ),
      (
        (
          n0-IsName,
          text-IsName (text "top.rvfi_order") (λ e. ground arith)
              (unfold is_space in
                (
                  refl,
                  (
                    refl,
                    (
                      refl,
                      (
                        refl,
                        (
                          refl,
                          (
                            refl,
                            (refl, (refl, (refl, (refl, (refl, (refl, (refl, (refl, tt)))))))),
                          ),
                        ),
                      ),
                    ),
                  ),
                )),
        ),
        (
          (
            (text-IsName (text "n1") (λ e. ground arith) (unfold is_space in (refl, (refl, tt)))),
            text-IsName (text "anyinit_order") (λ e. ground arith)
                (unfold is_space in
                  (
                    refl,
                    (
                      refl,
                      (
                        refl,
                        (
                          refl,
                          (
                            refl,
                            (refl, (refl, (refl, (refl, (refl, (refl, (refl, (refl, tt)))))))),
                          ),
                        ),
                      ),
                    ),
                  )),
          ),
          tt,
        ),
      ),
    ),
  );
  changes = (
    (
      (text-IsName (text "!") (λ e. ground arith) (unfold is_space in (refl, tt))),
      (((λ e. ground arith), n0-IsName), tt),
    ),
    (tt, ((((λ e. ground arith), n0-IsName), tt), tt)),
  );
}

parse_vcd-write_example :
    parse_vcd (write trace_file) ≡ snapshots (named [] trace_file.headers) [] trace_file.blocks
parse_vcd-write_example = parse_vcd-write trace_file trace_file-Fits

abbrev wires : List (Text × Text)
wires =
    (text "a", text "top.rvfi_trap")
    ∷ (text "b", text "top.clk")
    ∷ (text "c", text "top.checker.rvfi_trap")
    ∷ []

get-snapshot_example :
    get (text "rvfi_trap") (snapshot wires ((text "a", 1) ∷ []))
    ≡ if_any (column (text "rvfi_trap") wires ((text "a", 1) ∷ []))
get-snapshot_example = get-snapshot (text "rvfi_trap") wires ((text "a", 1) ∷ [])

rvfi_trap_column : column (text "rvfi_trap") wires ((text "a", 1) ∷ []) ≡ some 1 ∷ none ∷ []
unfolding base_name split eq_text get
rvfi_trap_column = refl

-- A valid sample, twice, and the next one.
abbrev sample : ℕ → Signals
sample order = (text "rvfi_valid", some 1 ∷ []) ∷ (text "rvfi_order", some order ∷ []) ∷ []

abbrev samples : Trace
samples =
    yield (pos 0) (sample 3)
      (yield (pos 5) (sample 3) (yield (pos 10) (sample 4) (raise value_error)))

report-first_of_runs_example :
    report false true nothing_seen samples
    ≡ print_all (lines true (first_of_runs (retirements samples))) (ending samples)
report-first_of_runs_example = report-first_of_runs true samples

first_of_runs-samples :
    first_of_runs (retirements samples) ≡ (pos 0, sample 3) ∷ (pos 10, sample 4) ∷ []
unfolding get eq_text
first_of_runs-samples = refl

abbrev files_there : Text → Option Text
files_there path = some (write trace_file)

main-write_example :
    main (text "t.vcd" ∷ []) (text "usage") files_there
    ≡ print_all
        (lines false (
          first_of_runs
            (retirements (snapshots (named [] trace_file.headers) [] trace_file.blocks))))
        (exit 0)
main-write_example =
    main-write (text "t.vcd") (text "usage") files_there trace_file (unfold starts_with in refl)
      refl trace_file-Fits

abbrev phase_signal : ℕ → Signals
phase_signal phase = (text "phase_q", some phase ∷ []) ∷ []

abbrev phase_trace : Trace
phase_trace =
    yield (pos 0) (phase_signal 2)
      (yield (pos 5) (sample 3) (yield (pos 10) (sample 3) (yield (pos 15) (phase_signal 2) stop)))

report-detailed_example : report true false nothing_seen phase_trace ≡ detailed false [] phase_trace
report-detailed_example = report-detailed false phase_trace

-- The state at 0, the retirement at 5, and nothing for what comes again.
detailed-phase_trace :
    detailed false [] phase_trace
    ≡ print_all
        (detail_line (pos 0) (phase_signal 2) ∷ retire_line false (pos 5) (sample 3) ∷ [])
        (exit 0)
unfolding get eq_text
detailed-phase_trace = refl

abbrev one_wire : Parser
one_wire = record { instances = (text "n0", text "top.x") ∷ []; vals = []; last_t = some (pos 0) }

take_line-has_unknown_example :
    take_line one_wire (b'b' ∷ text "0x1" ++ b' ' ∷ text "n0") (λ p. stop) ≡ raise value_error
take_line-has_unknown_example =
    take_line-has_unknown one_wire (λ p. stop) (text "0x1") (text "n0") (λ e. ground arith)
      (unfold is_bit in (refl, (refl, (refl, tt)))) refl n0-IsName (unfold get eq_text in refl)
