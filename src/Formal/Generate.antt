-- ===== src/Formal/Generate.antt =====
-- scripts/formal_m1_gen.py and formal_m2_gen.py: `main`, as the calls that it makes.
use riscv_vibecoded.Formal.{Config}
use riscv_vibecoded.Formal.Path.{join_path}
use riscv_vibecoded.Formal.Rewrite.{post_process}
use riscv_vibecoded.Py.Int.{pos}
use riscv_vibecoded.Py.Error.{Error, index_error, called_process_error}
use riscv_vibecoded.Py.Text.{Text, text, ends_with}
use riscv_vibecoded.Py.Text.Number.{str_of}
use riscv_vibecoded.Prelude.{Bool, List, [], ◌∷◌, ◌++◌, length, Option, none, some, if◌then◌else◌}

-- A directory: the names of its files, in the order of `sorted`, and what they hold.
abbrev pub Directory : Type 0
Directory = List (Text × Text)

-- What the script uses of its surroundings: os.path.abspath, tempfile.gettempdir(), which paths are
-- links, and the checks directory after genchecks.py, or none if that program fails.
pub record Environment : Type 0 where
  pub abspath : Text → Text
  pub tempdir : Text
  pub is_link : Text → Bool
  pub genchecks : Option Directory

-- The calls that have an effect; `write` opens a file, writes a text and closes it.
pub data Action : Type 0 where
  chdir rmtree makedirs print : Text → Action
  symlink copy : (from to : Text) → Action
  run : (argv : List Text) (cwd : Text) → Action
  write : (path content : Text) → Action

-- What the script does: calls, and an end with or without an exception.
pub data Run : Type 0 where
  done : Run
  failed : Error → Run
  calls : Action → Run → Run

abbrev pub native_root : Config → Environment → Text
native_root cfg env = join_path env.tempdir (cfg.root_name ∷ [])

abbrev pub bind_dir : Config → Environment → Text
bind_dir cfg env = join_path (native_root cfg env) (text "cores" ∷ text "up5k_rv" ∷ [])

abbrev pub checks_dir : Config → Environment → Text
checks_dir cfg env = join_path (bind_dir cfg env) (text "checks" ∷ [])

-- `if not os.path.islink(link): os.symlink(…)`
unfoldable pub link_to : Config → Environment → Text → Text → Run → Run
link_to cfg env rf_dir sub next =
    let link = join_path (native_root cfg env) (sub ∷ []) in
    if env.is_link link then next else calls (symlink (join_path rf_dir (sub ∷ [])) link) next

unfoldable pub copy_to : Config → Environment → Text → Text → Run → Run
copy_to cfg env src_dir f next =
    calls (copy (join_path src_dir (f ∷ [])) (join_path (bind_dir cfg env) (f ∷ []))) next

unfoldable pub run_genchecks : Config → Environment → Text → Run → Run
run_genchecks cfg env rf_dir next =
    calls
      (print (
        text "==> ["
        ++ (cfg.tag
            ++ (text "-gen] genchecks.py (isa from checks.cfg) into " ++ checks_dir cfg env))))
      (calls
        (run (text "python3" ∷ join_path rf_dir (text "checks" ∷ text "genchecks.py" ∷ []) ∷ [])
          (bind_dir cfg env))
        next)

-- Steps 1 and 2, up to the run of genchecks.py.
unfoldable pub stage : Config → Environment → Text → Run → Run
unfolding link_to copy_to run_genchecks
stage cfg env repo next =
    let rf_dir = join_path repo (text "formal" ∷ text "riscv-formal" ∷ []) in
    let src_dir = join_path repo (text "formal" ∷ text "up5k_rv" ∷ []) in
    calls (chdir env.tempdir) (
      calls (rmtree (bind_dir cfg env)) (
        calls (makedirs (bind_dir cfg env)) (
          link_to cfg env rf_dir (text "checks") (
            link_to cfg env rf_dir (text "insns") (
              copy_to cfg env src_dir (text "wrapper.sv") (
                copy_to cfg env src_dir (text "checks.cfg")
                  (run_genchecks cfg env rf_dir next)))))))

-- Step 3: the loop over the files.
unfoldable pub process_files : Config → Environment → Text → Directory → Run → Run
process_files cfg env repo [] next = next
process_files cfg env repo ((fname, content) ∷ files) next =
    let rest = process_files cfg env repo files next in
    let path = join_path (checks_dir cfg env) (fname ∷ []) in
    if ends_with fname (text ".sby")
    then calls (write path (post_process cfg repo fname content)) rest
    else rest

unfoldable pub report_on : Config → Environment → Directory → Run
report_on cfg env files =
    calls
      (print (
        text "==> ["
        ++ (cfg.tag
            ++ (text "-gen] post-processed "
                ++ (str_of (pos (length files)) ++ (text " files in " ++ checks_dir cfg env))))))
      (calls (print (checks_dir cfg env)) done)

unfoldable pub finish : Config → Environment → Text → Option Directory → Run
unfolding process_files report_on
finish cfg env repo none = failed called_process_error
finish cfg env repo (some files) = process_files cfg env repo files (report_on cfg env files)

-- `main`, of the arguments after the program's name
unfoldable pub generate : Config → Environment → List Text → Run
unfolding stage finish
generate cfg env [] = failed index_error
generate cfg env (arg ∷ args) =
    let repo = env.abspath arg in stage cfg env repo (finish cfg env repo env.genchecks)
