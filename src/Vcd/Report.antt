-- ===== src/Vcd/Report.antt =====
-- tools/sby_retire_stream.py: `main`, what it prints and how it ends.
pub mod Reference
pub mod Program
pub mod Phases
use riscv_vibecoded.Vcd.{Signals, fmt}
use riscv_vibecoded.Vcd.Parse.{Trace, stop, raise, yield, parse_vcd}
use riscv_vibecoded.Py.Int.{ℤ}
use riscv_vibecoded.Py.Dict.{get}
use riscv_vibecoded.Py.Equality.{Eq}
use riscv_vibecoded.Py.Error.{file_not_found}
use riscv_vibecoded.Py.Output.{Output, exit, raised, prints, print_all}
use riscv_vibecoded.Py.Text.{Text, text, text_eq, eq_text, elem, starts_with, join}
use riscv_vibecoded.Py.Text.Number.{str_of}
use riscv_vibecoded.Prelude.{
  ℕ, Bool, true, false, not, ◌&&◌, ◌||◌, ◌==◌, ==_iff, List, [], ◌∷◌, ◌++◌, map, Option, none, some,
  if◌then◌else◌,
}

-- RETIRE_SIGNALS
abbrev pub retire_signals : List Text
retire_signals =
    text "rvfi_order"
    ∷ text "rvfi_insn"
    ∷ text "rvfi_pc_rdata"
    ∷ text "rvfi_pc_wdata"
    ∷ text "rvfi_rs1_addr"
    ∷ text "rvfi_rs1_rdata"
    ∷ text "rvfi_rs2_addr"
    ∷ text "rvfi_rs2_rdata"
    ∷ text "rvfi_rd_addr"
    ∷ text "rvfi_rd_wdata"
    ∷ text "rvfi_mem_addr"
    ∷ text "rvfi_mem_rmask"
    ∷ text "rvfi_mem_wmask"
    ∷ text "rvfi_mem_rdata"
    ∷ text "rvfi_mem_wdata"
    ∷ text "rvfi_trap"
    ∷ text "spec_trap"
    ∷ text "check"
    ∷ text "rvfi_csr_mcycle_rmask"
    ∷ text "rvfi_csr_mcycle_wmask"
    ∷ text "rvfi_csr_mcycle_rdata"
    ∷ text "rvfi_csr_mcycle_wdata"
    ∷ []

-- DETAIL_SIGNALS
abbrev pub detail_signals : List Text
detail_signals =
    text "phase_q"
    ∷ text "word_pending_q"
    ∷ text "fetch_phase_q"
    ∷ text "fetch_pc_q"
    ∷ text "word_pc_q"
    ∷ text "insn_exe_q"
    ∷ text "pc_exe_q"
    ∷ text "order_q"
    ∷ []

-- sig.get(name, [None]), and the first of these; a snapshot holds no empty list.
unfoldable pub values : Text → Signals → List (Option ℕ)
values name sig = elim (get name sig) [ none ↦ none ∷ [] | some vs ↦ vs ]

abbrev pub head_of : List (Option ℕ) → Option ℕ
head_of [] = none
head_of (v ∷ vs) = v

unfoldable pub first_value : Text → Signals → Option ℕ
unfolding values
first_value name sig = head_of (values name sig)

-- The number of a retirement: its `rvfi_order` and its `rvfi_pc_rdata`.
abbrev pub Key : Type 0
Key = Option ℕ × Option ℕ

unfoldable pub key_of : Signals → Key
key_of sig = (first_value (text "rvfi_order") sig, first_value (text "rvfi_pc_rdata") sig)

unfoldable pub same_value : Option ℕ → Option ℕ → Bool
same_value none none = true
same_value (some a) (some b) = a == b
same_value _ _ = false

-- key == last_key, where last_key may be None
unfoldable pub is_last : Key → Option Key → Bool
is_last key none = false
is_last (order, pc) (some (order', pc')) = same_value order order' && same_value pc pc'

unfoldable pub retire_field : Bool → Signals → Text → Text
retire_field all_inst sig name =
    let vs = values name sig in
    let every = join (text "|") (map fmt vs) in
    let shown =
      if elem name (text "check" ∷ text "rvfi_trap" ∷ text "spec_trap" ∷ []) && all_inst
      then every
      else fmt (head_of vs) in
    name ++ b'=' ∷ shown

abbrev pub time_field : ℤ → Text
time_field t = text "t=" ++ str_of t

unfoldable pub retire_line : Bool → ℤ → Signals → Text
retire_line all_inst t sig =
    join (text "  ") (time_field t ∷ map (retire_field all_inst sig) retire_signals)

unfoldable pub detail_field : Signals → Text → Text
detail_field sig name = name ++ b'=' ∷ fmt (first_value name sig)

abbrev pub without : Text → List Text → List Text
without name [] = []
without name (n ∷ ns) = if eq_text n name then without name ns else n ∷ without name ns

unfoldable pub detail_line : ℤ → Signals → Text
detail_line t sig =
    text "      "
    ++ join (text "  ")
        (time_field t ∷ map (detail_field sig) (without (text "phase_q") detail_signals))

instance abbrev pub nat_eq : Eq ℕ
nat_eq = record { same = ◌==◌; same_iff = ==_iff }

-- The last round's variables of the loop in `main`.
pub record Seen : Type 0 where
  pub phases : List ℕ
  pub last_key : Option Key

-- The part of a round for --detail: the line that it prints, if any, and the phases seen.
unfoldable pub take_phase : ℤ → Signals → Option ℕ → List ℕ → List Text × List ℕ
take_phase t sig none phases = ([], phases)
take_phase t sig (some phase) phases =
    if elem phase phases then ([], phases) else (detail_line t sig ∷ [], phase ∷ phases)

unfoldable pub is_retire : Signals → Bool
is_retire sig = same_value (first_value (text "rvfi_valid") sig) (some 1)

unfoldable pub take_detail : Bool → ℤ → Signals → List ℕ → List Text × List ℕ
unfolding take_phase
take_detail false t sig phases = ([], phases)
take_detail true t sig phases = take_phase t sig (first_value (text "phase_q") sig) phases

-- One round: the lines that it prints, and its variables after it.
unfoldable pub take_snapshot : Bool → Bool → ℤ → Signals → Seen → List Text × Seen
unfolding take_detail
take_snapshot detail all_inst t sig seen =
    let key = key_of sig in
    let (shown, phases) = take_detail detail t sig seen.phases in
    if is_retire sig
    then (if is_last key seen.last_key
        then ([], seen)
        else (retire_line all_inst t sig ∷ shown, record { phases = phases; last_key = some key }))
    else (shown, record seen { phases = phases })

unfoldable pub report : Bool → Bool → Seen → Trace → Output
unfolding take_snapshot
report detail all_inst seen stop = exit 0
report detail all_inst seen (raise e) = raised e
report detail all_inst seen (yield t sig rest) =
    let (lines, after) = take_snapshot detail all_inst t sig seen in
    print_all lines (report detail all_inst after rest)

abbrev pub positional : List Text → List Text
positional [] = []
positional (a ∷ as') = if starts_with a (text "--") then positional as' else a ∷ positional as'

abbrev pub nothing_seen : Seen
nothing_seen = record { phases = []; last_key = none }

-- for … in parse_vcd(path), with what the file holds, if there is one
unfoldable pub report_file : Bool → Bool → Option Text → Output
report_file detail all_inst none = raised file_not_found
report_file detail all_inst (some content) = report detail all_inst nothing_seen (parse_vcd content)

-- The arguments after the program's name, the module's docstring, and the files that there are.
unfoldable pub run_on : List Text → List Text → Text → (Text → Option Text) → Output
run_on argv [] doc files = prints doc (exit 1)
run_on argv (path ∷ rest) doc files =
    report_file (elem (text "--detail") argv) (elem (text "--all-instances") argv) (files path)

unfoldable pub main : List Text → Text → (Text → Option Text) → Output
unfolding run_on
main argv doc files = run_on argv (positional argv) doc files
