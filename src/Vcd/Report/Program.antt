-- ===== src/Vcd/Report/Program.antt =====
-- tools/sby_retire_stream.py: the program as a whole, on a file that is written well.
use riscv_vibecoded.Vcd.Parse.{Trace}
use riscv_vibecoded.Vcd.Report.{report_file, run_on, main}
use riscv_vibecoded.Py.Output.{exit, print_all}
use riscv_vibecoded.Vcd.Report.Reference.{
  first_of_runs, retirements, ending, lines, report-first_of_runs,
}
use riscv_vibecoded.Vcd.Writer.{Block, File, write, Fits, named, changed, snapshots}
use riscv_vibecoded.Vcd.RoundTrip.Parse.{parse_vcd-write}
use riscv_vibecoded.Py.Text.{Text, text, text_eq, eq_text, eq_text_iff, elem, starts_with}
use riscv_vibecoded.Py.Text.Strip.{starts_with-append}
use riscv_vibecoded.Prelude.{
  ℕ, false, List, [], ◌∷◌, ◌++◌, Option, some, Bool-cases, inl, inr, ◌≡◌, refl, ap, ◌∙◌, arith,
}

ending-snapshots :
    (names : List (Text × Text)) (vals : List (Text × ℕ)) (bs : List Block)
    → ending (snapshots names vals bs) ≡ exit 0
unfolding snapshots
ending-snapshots names vals [] = refl
ending-snapshots names vals (b ∷ bs) = ending-snapshots names (changed names vals b.changes) bs

-- A path that is no option is none of the two that the program knows.
not_option :
    (path rest : Text)
    → starts_with path (text "--") ≡ false
    → elem (text "--" ++ rest) (path ∷ []) ≡ false
unfolding elem
not_option path rest h = elim (Bool-cases (eq_text path (text "--" ++ rest))) [
  | inl same ↦ absurd (clash ((eq_text_iff path (text "--" ++ rest)).0 same))
  | inr other ↦ rw other refl
]
  where
    clash : path ≡ text "--" ++ rest → ⊥
    clash e =
        let begins =
          ap (λ (s : Text). starts_with s (text "--")) e ∙ starts_with-append (text "--") rest in
        ground (arith, h, begins)

-- For a path that is no option, to a VCD file that is written well: the program, with this one argument,
-- prints the line of the first sample of each run of samples with a valid retirement and one key, of the
-- samples that the blocks of the file describe, and ends with status 0.
pub main-write :
    (path doc : Text) (files : Text → Option Text) (f : File)
    → starts_with path (text "--") ≡ false
    → files path ≡ some (write f)
    → Fits f
    → main (path ∷ []) doc files
      ≡ print_all
          (lines false (first_of_runs (retirements (snapshots (named [] f.headers) [] f.blocks))))
          (exit 0)
unfolding main run_on report_file
main-write path doc files f argument there fits =
    let tr : Trace = snapshots (named [] f.headers) [] f.blocks in
    rw
      (
        argument,
        not_option path (text "detail") argument,
        not_option path (text "all-instances") argument,
        there,
        parse_vcd-write f fits,
      )
      (report-first_of_runs false tr
        ∙ ap (print_all (lines false (first_of_runs (retirements tr))))
            (ending-snapshots (named [] f.headers) [] f.blocks))
