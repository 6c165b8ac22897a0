-- ===== src/Vcd/Report/Reference.antt =====
-- What a report has: of the samples with a valid retirement, the first of each run with one key.
use riscv_vibecoded.Vcd.{Signals}
use riscv_vibecoded.Vcd.Parse.{Trace, stop, raise, yield}
use riscv_vibecoded.Vcd.Report.{
  Key, key_of, is_last, same_value, is_retire, first_value, values, head_of, retire_line,
  take_detail, take_snapshot, report, nothing_seen,
}
use riscv_vibecoded.Py.Output.{print_all, Output, exit, raised, prints}
use riscv_vibecoded.Py.Int.{ℤ}
use riscv_vibecoded.Py.Dict.{get}
use riscv_vibecoded.Py.Text.{Text, text, text_eq}
use riscv_vibecoded.Prelude.{
  ℕ, Bool, true, false, ◌&&◌, List, [], ◌∷◌, Option, none, some, Bool-cases, inl, inr, ◌≡◌, ◌==◌,
  refl, sym, ap, ◌∙◌, if◌then◌else◌, arith,
}

abbrev pub Sample : Type 0
Sample = ℤ × Signals

abbrev pub first_of : Option (List (Option ℕ)) → Option ℕ
first_of none = none
first_of (some []) = none
first_of (some (v ∷ vs)) = v

-- The value of the first instance of a signal, if the sample has one and it is known.
abbrev pub known : Text → Signals → Option ℕ
known name sig = first_of (get name sig)

abbrev pub equal : Option ℕ → Option ℕ → Bool
equal none none = true
equal none (some b) = false
equal (some a) none = false
equal (some a) (some b) = a == b

-- Two samples with the same rvfi_order and rvfi_pc_rdata.
abbrev pub same_key : Signals → Signals → Bool
same_key a b =
    equal (known (text "rvfi_order") a) (known (text "rvfi_order") b)
    && equal (known (text "rvfi_pc_rdata") a) (known (text "rvfi_pc_rdata") b)

-- A sample with rvfi_valid = 1.
abbrev pub is_valid : Signals → Bool
is_valid sig = equal (known (text "rvfi_valid") sig) (some 1)

-- The samples of a trace with a valid retirement, and how the trace ends.
abbrev pub retirements : Trace → List Sample
retirements stop = []
retirements (raise e) = []
retirements (yield t sig rest) =
    let later = retirements rest in if is_valid sig then (t, sig) ∷ later else later

abbrev pub ending : Trace → Output
ending stop = exit 0
ending (raise e) = raised e
ending (yield t sig rest) = ending rest

-- The samples whose key is not that of the sample before them.
abbrev pub changes_after : Signals → List Sample → List Sample
changes_after before [] = []
changes_after before ((t, sig) ∷ later) =
    let rest = changes_after sig later in if same_key sig before then rest else (t, sig) ∷ rest

abbrev pub first_of_runs : List Sample → List Sample
first_of_runs [] = []
first_of_runs ((t, sig) ∷ later) = (t, sig) ∷ changes_after sig later

abbrev pub lines : Bool → List Sample → List Text
lines all_inst [] = []
lines all_inst ((t, sig) ∷ later) = retire_line all_inst t sig ∷ lines all_inst later

pub first_value-known : (name : Text) (sig : Signals) → first_value name sig ≡ known name sig
unfolding first_value values
first_value-known name sig =
    elim (get name sig)
      as (λ (o : Option (List (Option ℕ))).
        head_of (elim o [ none ↦ none ∷ [] | some vs ↦ vs ]) ≡ first_of o) [
          | none ↦ refl
          | some vs ↦ head_lem vs
        ]
  where
    head_lem : (vs : List (Option ℕ)) → head_of vs ≡ first_of (some vs)
    head_lem [] = refl
    head_lem (v ∷ vs) = refl

pub same_value-equal : (a b : Option ℕ) → same_value a b ≡ equal a b
unfolding same_value
same_value-equal none none = refl
same_value-equal none (some b) = refl
same_value-equal (some a) none = refl
same_value-equal (some a) (some b) = refl

pub equal-eq : (a b : Option ℕ) → equal a b ≡ true → a ≡ b
equal-eq none none h = refl
equal-eq none (some b) h = absurd (ground arith)
equal-eq (some a) none h = absurd (ground arith)
equal-eq (some a) (some b) h = ground arith

pub is_retire-is_valid : (sig : Signals) → is_retire sig ≡ is_valid sig
unfolding is_retire
is_retire-is_valid sig =
    same_value-equal (first_value (text "rvfi_valid") sig) (some 1)
    ∙ rw (first_value-known (text "rvfi_valid") sig) refl

pub is_last-same_key : (a b : Signals) → is_last (key_of a) (some (key_of b)) ≡ same_key a b
unfolding is_last key_of
is_last-same_key a b =
    rw
      (
        first_value-known (text "rvfi_order") a,
        first_value-known (text "rvfi_order") b,
        first_value-known (text "rvfi_pc_rdata") a,
        first_value-known (text "rvfi_pc_rdata") b,
        same_value-equal (known (text "rvfi_order") a) (known (text "rvfi_order") b),
        same_value-equal (known (text "rvfi_pc_rdata") a) (known (text "rvfi_pc_rdata") b),
      )
      refl

pub same_key-eq : (a b : Signals) → same_key a b ≡ true → key_of a ≡ key_of b
unfolding key_of
same_key-eq a b e =
    let order : known (text "rvfi_order") a ≡ known (text "rvfi_order") b =
      equal-eq (known (text "rvfi_order") a) (known (text "rvfi_order") b) (ground arith) in
    let pc : known (text "rvfi_pc_rdata") a ≡ known (text "rvfi_pc_rdata") b =
      equal-eq (known (text "rvfi_pc_rdata") a) (known (text "rvfi_pc_rdata") b) (ground arith) in
    rw
      (
        first_value-known (text "rvfi_order") a,
        first_value-known (text "rvfi_order") b,
        first_value-known (text "rvfi_pc_rdata") a,
        first_value-known (text "rvfi_pc_rdata") b,
        order,
        pc,
      )
      refl

-- The run after a printed retirement, whose key is also that of the sample before.
report-changes_after :
    (all_inst : Bool) (phases : List ℕ) (before : Signals) (tr : Trace)
    → report false all_inst (record { phases = phases; last_key = some (key_of before) }) tr
      ≡ print_all (lines all_inst (changes_after before (retirements tr))) (ending tr)
unfolding report take_snapshot take_detail
report-changes_after all_inst phases before stop = refl
report-changes_after all_inst phases before (raise e) = refl
report-changes_after all_inst phases before (yield t sig rest) = elim (Bool-cases (is_valid sig)) [
  | inl retire ↦ elim (Bool-cases (same_key sig before)) [
    | inl same ↦
        rw (is_retire-is_valid sig, retire, is_last-same_key sig before, same)
          (ap
              (λ (k : Key).
                report false all_inst (record { phases = phases; last_key = some k }) rest)
              (sym (same_key-eq sig before same))
            ∙ report-changes_after all_inst phases sig rest)
    | inr other ↦
        rw (is_retire-is_valid sig, retire, is_last-same_key sig before, other)
          (ap (prints (retire_line all_inst t sig)) (report-changes_after all_inst phases sig rest))
  ]
  | inr none' ↦
      rw (is_retire-is_valid sig, none') (report-changes_after all_inst phases before rest)
]

-- For every trace, without --detail: the report prints one line for the first sample of each run of
-- samples with rvfi_valid = 1 that have the same rvfi_order and rvfi_pc_rdata, in order, and ends
-- with status 0 or with the exception that ends the trace.
pub report-first_of_runs :
    (all_inst : Bool) (tr : Trace)
    → report false all_inst nothing_seen tr
      ≡ print_all (lines all_inst (first_of_runs (retirements tr))) (ending tr)
unfolding report take_snapshot take_detail is_last
report-first_of_runs all_inst stop = refl
report-first_of_runs all_inst (raise e) = refl
report-first_of_runs all_inst (yield t sig rest) = elim (Bool-cases (is_valid sig)) [
  | inl retire ↦
      rw (is_retire-is_valid sig, retire)
        (ap (prints (retire_line all_inst t sig)) (report-changes_after all_inst [] sig rest))
  | inr none' ↦ rw (is_retire-is_valid sig, none') (report-first_of_runs all_inst rest)
]
