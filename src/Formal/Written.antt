-- ===== src/Formal/Written.antt =====
-- scripts/formal_m1_gen.py and formal_m2_gen.py: which files the script rewrites, and how it ends.
use riscv_vibecoded.Formal.{Config}
use riscv_vibecoded.Formal.Path.{join_path}
use riscv_vibecoded.Formal.Rewrite.{post_process}
use riscv_vibecoded.Formal.Generate.{
  Directory, Environment, Action, write, Run, done, failed, calls, native_root, checks_dir, link_to,
  copy_to, run_genchecks, stage, process_files, report_on, finish, generate,
}
use riscv_vibecoded.Py.Error.{Error, called_process_error}
use riscv_vibecoded.Py.Text.{Text, text, ends_with}
use riscv_vibecoded.Prelude.{
  List, [], ◌∷◌, Option, none, some, Bool-cases, inl, inr, ◌≡◌, refl, ap, ◌∙◌, if◌then◌else◌,
}

-- The texts that a run writes, and its end.
abbrev pub Outcome : Type 0
Outcome = List (Text × Text) × Option Error

abbrev pub with_call : Action → Outcome → Outcome
with_call (write p content) (files, end) = ((p, content) ∷ files, end)
with_call _ o = o

abbrev pub outcome : Run → Outcome
outcome done = ([], none)
outcome (failed e) = ([], some e)
outcome (calls a r) = with_call a (outcome r)

-- The .sby files of a directory, each with the rewritten content.
abbrev pub rewritten : Config → Text → Text → Directory → List (Text × Text)
rewritten cfg repo dir [] = []
rewritten cfg repo dir ((fname, content) ∷ files) =
    let rest = rewritten cfg repo dir files in
    if ends_with fname (text ".sby")
    then (join_path dir (fname ∷ []), post_process cfg repo fname content) ∷ rest
    else rest

abbrev pub expected : Config → Text → Text → Option Directory → Outcome
expected cfg repo dir none = ([], some called_process_error)
expected cfg repo dir (some files) = (rewritten cfg repo dir files, none)

module _ (cfg : Config) (env : Environment) where
  outcome-link_to :
      (rf_dir sub : Text) (next : Run) → outcome (link_to cfg env rf_dir sub next) ≡ outcome next
  unfolding link_to
  outcome-link_to rf_dir sub next =
      elim (Bool-cases (env.is_link (join_path (native_root cfg env) (sub ∷ [])))) [
        | inl there ↦ rw there refl
        | inr absent ↦ rw absent refl
      ]

  outcome-stage : (repo : Text) (next : Run) → outcome (stage cfg env repo next) ≡ outcome next
  unfolding stage
  outcome-stage repo next =
      outcome-link_to _ (text "checks") _
      ∙ outcome-link_to _ (text "insns") _
      ∙ unfold copy_to run_genchecks in refl

  outcome-process_files :
      (repo : Text) (files : Directory) (next : Run)
      → outcome next ≡ ([], none)
      → outcome (process_files cfg env repo files next)
        ≡ (rewritten cfg repo (checks_dir cfg env) files, none)
  unfolding process_files
  outcome-process_files repo [] next h = h
  outcome-process_files repo ((fname, content) ∷ files) next h =
      let later = outcome-process_files repo files next h in
      elim (Bool-cases (ends_with fname (text ".sby"))) [
        | inl sby ↦ rw sby (
            ap
              (with_call (
                write (join_path (checks_dir cfg env) (fname ∷ []))
                  (post_process cfg repo fname content)))
              later)
        | inr other ↦ rw other later
      ]

  outcome-finish :
      (repo : Text) (files : Option Directory)
      → outcome (finish cfg env repo files) ≡ expected cfg repo (checks_dir cfg env) files
  unfolding finish
  outcome-finish repo none = refl
  outcome-finish repo (some files) =
      outcome-process_files repo files (report_on cfg env files) (unfold report_on in refl)

  -- For every script and all arguments but none: if genchecks.py fails, the script raises
  -- CalledProcessError and writes no text; otherwise it ends well and what it writes is the rewritten
  -- content of each .sby file of the checks directory, at its place, and no other file.
  pub outcome-generate :
      (arg : Text) (args : List Text)
      → outcome (generate cfg env (arg ∷ args))
        ≡ expected cfg (env.abspath arg) (checks_dir cfg env) env.genchecks
  unfolding generate
  outcome-generate arg args =
      outcome-stage (env.abspath arg) (finish cfg env (env.abspath arg) env.genchecks)
      ∙ outcome-finish (env.abspath arg) env.genchecks
