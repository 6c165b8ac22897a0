-- ===== src/Formal/Native.antt =====
-- scripts/formal_m1_gen.py and formal_m2_gen.py: where the script writes, and what.
use riscv_vibecoded.Formal.{Config}
use riscv_vibecoded.Formal.Path.{join_one, join_path}
use riscv_vibecoded.Formal.Generate.{
  Directory, Environment, Action, rmtree, makedirs, symlink, copy, write, Run, done, failed, calls,
  native_root, bind_dir, checks_dir, link_to, copy_to, run_genchecks, stage, process_files,
  report_on, finish, generate,
}
use riscv_vibecoded.Py.Text.{Text, text, eq_text, starts_with, ends_with}
use riscv_vibecoded.Prelude.{
  true, false, ◌==◌, ◌||◌, List, [], ◌∷◌, ◌++◌, All, Option, none, some, Bool-cases, inl, inr, ◌≡◌,
  refl, arith,
}

-- The path that a call writes, removes or makes, if any.
abbrev pub target : Action → Option Text
target (rmtree p) = some p
target (makedirs p) = some p
target (symlink from to) = some to
target (copy from to) = some to
target (write p content) = some p
target _ = none

abbrev pub UnderPath : Text → Option Text → Type 0
UnderPath root none = Unit
UnderPath root (some p) = starts_with p root ≡ true

abbrev pub EachCall : (Action → Type 0) → Run → Type 0
EachCall P done = Unit
EachCall P (failed e) = Unit
EachCall P (calls a r) = P a × EachCall P r

abbrev pub Relative : Text → Type 0
Relative p = starts_with p (text "/") ≡ false

starts_with_self : (s : Text) → starts_with s s ≡ true
unfolding starts_with
starts_with_self [] = refl
starts_with_self (c ∷ s) = ground (arith, starts_with_self s)

starts_with-append_left :
    (s t root : Text) → starts_with s root ≡ true → starts_with (s ++ t) root ≡ true
unfolding starts_with
starts_with-append_left s t [] h = refl
starts_with-append_left [] t (d ∷ root) h = ground arith
starts_with-append_left (c ∷ s) t (d ∷ root) h = elim (Bool-cases (c == d)) [
  | inl same ↦ rw same (starts_with-append_left s t root (ground (arith, h, same)))
  | inr other ↦ ground (arith, h, other)
]

join_one_under :
    (root path part : Text)
    → starts_with path root ≡ true
    → Relative part
    → starts_with (join_one path part) root ≡ true
unfolding join_one
join_one_under root path part h rel =
    rw rel (elim (Bool-cases (eq_text path [] || ends_with path (text "/"))) [
      | inl ended ↦ rw ended (starts_with-append_left path part root h)
      | inr open' ↦ rw open' (starts_with-append_left path (b'/' ∷ part) root h)
    ])

join_path_under :
    (root path : Text) (parts : List Text)
    → starts_with path root ≡ true
    → All Relative parts
    → starts_with (join_path path parts) root ≡ true
unfolding join_path
join_path_under root path [] h rel = h
join_path_under root path (part ∷ parts) h rel =
    join_path_under root (join_one path part) parts (join_one_under root path part h rel.0) rel.1

-- The calls of one script, in its surroundings.
module _ (cfg : Config) (env : Environment) where
  abbrev pub InNative : Action → Type 0
  InNative a = UnderPath (native_root cfg env) (target a)

  bind_dir_under : starts_with (bind_dir cfg env) (native_root cfg env) ≡ true
  bind_dir_under =
      join_path_under (native_root cfg env) (native_root cfg env)
        (text "cores" ∷ text "up5k_rv" ∷ []) (starts_with_self (native_root cfg env))
        (unfold starts_with in (refl, (refl, tt)))

  checks_dir_under : starts_with (checks_dir cfg env) (native_root cfg env) ≡ true
  checks_dir_under =
      join_path_under (native_root cfg env) (bind_dir cfg env) (text "checks" ∷ []) bind_dir_under
        (unfold starts_with in (refl, tt))

  link_to-InNative :
      (rf_dir sub : Text) (next : Run)
      → Relative sub
      → EachCall InNative next
      → EachCall InNative (link_to cfg env rf_dir sub next)
  unfolding link_to
  link_to-InNative rf_dir sub next rel h =
      let link = join_path (native_root cfg env) (sub ∷ []) in
      elim (Bool-cases (env.is_link link)) [
        | inl there ↦ rw there h
        | inr absent ↦ rw absent (
          join_path_under (native_root cfg env) (native_root cfg env) (sub ∷ [])
              (starts_with_self (native_root cfg env)) (rel, tt),
          h,
        )
      ]

  copy_to-InNative :
      (src_dir f : Text) (next : Run)
      → Relative f
      → EachCall InNative next
      → EachCall InNative (copy_to cfg env src_dir f next)
  unfolding copy_to
  copy_to-InNative src_dir f next rel h = (
    join_path_under (native_root cfg env) (bind_dir cfg env) (f ∷ []) bind_dir_under (rel, tt),
    h,
  )

  process_files-InNative :
      (repo : Text) (files : Directory) (next : Run)
      → All (λ (f : Text × Text). Relative f.0) files
      → EachCall InNative next
      → EachCall InNative (process_files cfg env repo files next)
  unfolding process_files
  process_files-InNative repo [] next rel h = h
  process_files-InNative repo ((fname, content) ∷ files) next rel h =
      let later = process_files-InNative repo files next rel.1 h in
      elim (Bool-cases (ends_with fname (text ".sby"))) [
        | inl sby ↦ rw sby (
          join_path_under (native_root cfg env) (checks_dir cfg env) (fname ∷ []) checks_dir_under
              (rel.0, tt),
          later,
        )
        | inr other ↦ rw other later
      ]

  abbrev pub FilesFit : Option Directory → Type 0
  FilesFit none = Unit
  FilesFit (some files) = All (λ (f : Text × Text). Relative f.0) files

  finish-InNative :
      (repo : Text) (files : Option Directory)
      → FilesFit files
      → EachCall InNative (finish cfg env repo files)
  unfolding finish
  finish-InNative repo none h = tt
  finish-InNative repo (some files) h =
      process_files-InNative repo files (report_on cfg env files) h
        (unfold report_on in (tt, (tt, tt)))

  stage-InNative :
      (repo : Text) (next : Run)
      → EachCall InNative next
      → EachCall InNative (stage cfg env repo next)
  unfolding stage starts_with
  stage-InNative repo next h =
      let rf_dir = join_path repo (text "formal" ∷ text "riscv-formal" ∷ []) in
      let src_dir = join_path repo (text "formal" ∷ text "up5k_rv" ∷ []) in
      let checks : Text = text "checks.cfg" in
      let last = run_genchecks cfg env rf_dir next in
      let copies =
        copy_to cfg env src_dir (text "wrapper.sv") (copy_to cfg env src_dir checks last) in
      let copied : EachCall InNative copies =
        copy_to-InNative src_dir (text "wrapper.sv") (copy_to cfg env src_dir checks last) refl
          (copy_to-InNative src_dir checks last refl (unfold run_genchecks in (tt, (tt, h)))) in
      (
        tt,
        (
          bind_dir_under,
          (
            bind_dir_under,
            link_to-InNative rf_dir (text "checks") (link_to cfg env rf_dir (text "insns") copies)
                refl (link_to-InNative rf_dir (text "insns") copies refl copied),
          ),
        ),
      )

  -- For every script and all arguments, whatever genchecks.py leaves, as long as no file name begins with
  -- a slash: each path that the script removes, makes, links, copies to or writes begins with the path of
  -- its own directory under the one for temporary files.
  pub generate-InNative :
      (args : List Text) → FilesFit env.genchecks → EachCall InNative (generate cfg env args)
  unfolding generate
  generate-InNative [] h = tt
  generate-InNative (arg ∷ args) h =
      stage-InNative (env.abspath arg) (finish cfg env (env.abspath arg) env.genchecks)
        (finish-InNative (env.abspath arg) env.genchecks h)
