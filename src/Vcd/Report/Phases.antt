-- ===== src/Vcd/Report/Phases.antt =====
-- tools/sby_retire_stream.py with --detail: what is printed for each sample, by the samples before it.
use riscv_vibecoded.Vcd.{Signals}
use riscv_vibecoded.Vcd.Parse.{Trace, stop, raise, yield}
use riscv_vibecoded.Vcd.Report.{
  Key, nat_eq, Seen, nothing_seen, is_last, key_of, take_phase, take_detail, take_snapshot,
  retire_line, detail_line, report,
}
use riscv_vibecoded.Vcd.Report.Reference.{
  known, equal, same_key, is_valid, first_value-known, is_retire-is_valid, is_last-same_key,
  same_value-equal, equal-eq,
}
use riscv_vibecoded.Py.Int.{ℤ}
use riscv_vibecoded.Py.Output.{Output, exit, raised, print_all}
use riscv_vibecoded.Py.Text.{Text, text, elem}
use riscv_vibecoded.Prelude.{
  ℕ, Bool, true, false, not, ◌&&◌, ◌||◌, ◌==◌, if◌then◌else◌, List, [], ◌∷◌, Option, none, some,
  Bool-cases, inl, inr, ◌≡◌, refl, sym, ap, ◌∙◌, arith, subst, ap₂, ==_iff,
}

-- In what follows `earlier` are the samples before one, the latest first. Whether the latest valid one
-- has the key of a sample.
abbrev pub key_is_last : List Signals → Signals → Bool
key_is_last [] sig = false
key_is_last (b ∷ bs) sig =
    let before = key_is_last bs sig in if is_valid b then same_key sig b else before

-- A valid sample that repeats the retirement before it.
abbrev pub repeats : List Signals → Signals → Bool
repeats earlier sig = is_valid sig && key_is_last earlier sig

-- Whether an earlier sample, but one that repeats a retirement, has a phase.
abbrev pub has_phase : List Signals → ℕ → Bool
has_phase [] p = false
has_phase (b ∷ bs) p =
    equal (known (text "phase_q") b) (some p) && not (repeats bs b) || has_phase bs p

-- The lines for a sample: none if it repeats a retirement, else its retirement, if it is valid, and the
-- pipeline state, if its phase is a new one.
abbrev pub phase_lines : List Signals → ℤ → Signals → Option ℕ → List Text
phase_lines earlier t sig none = []
phase_lines earlier t sig (some p) = if has_phase earlier p then [] else detail_line t sig ∷ []

abbrev pub sample_lines : Bool → List Signals → ℤ → Signals → List Text
sample_lines all_inst earlier t sig =
    let state = phase_lines earlier t sig (known (text "phase_q") sig) in
    if repeats earlier sig
    then []
    else if is_valid sig
    then retire_line all_inst t sig ∷ state
    else state

abbrev pub detailed : Bool → List Signals → Trace → Output
detailed all_inst earlier stop = exit 0
detailed all_inst earlier (raise e) = raised e
detailed all_inst earlier (yield t sig rest) =
    print_all (sample_lines all_inst earlier t sig) (detailed all_inst (sig ∷ earlier) rest)

-- The key of the latest valid sample.
abbrev key_before : List Signals → Option Key
key_before [] = none
key_before (b ∷ bs) = let before = key_before bs in if is_valid b then some (key_of b) else before

key_before-key_is_last :
    (earlier : List Signals) (sig : Signals)
    → is_last (key_of sig) (key_before earlier) ≡ key_is_last earlier sig
unfolding is_last
key_before-key_is_last [] sig = refl
key_before-key_is_last (b ∷ bs) sig = elim (Bool-cases (is_valid b)) [
  | inl valid ↦ rw valid (is_last-same_key sig b)
  | inr other ↦ rw other (key_before-key_is_last bs sig)
]

is_last-eq : (key : Key) (last : Option Key) → is_last key last ≡ true → last ≡ some key
unfolding is_last
is_last-eq key none h = absurd (ground arith)
is_last-eq (order, pc) (some (order', pc')) h =
    ap₂ (λ (a b : Option ℕ). some (a, b))
      (sym (equal-eq order order' (ground (arith, same_value-equal order order'))))
      (sym (equal-eq pc pc' (ground (arith, same_value-equal pc pc'))))

-- The variables of the loop are what the samples before say.
record Agrees (earlier : List Signals) (seen : Seen) : Type 0 where
  phases : (p : ℕ) → elem p seen.phases ≡ has_phase earlier p
  last : seen.last_key ≡ key_before earlier

phases_after :
    (earlier : List Signals) (t : ℤ) (sig : Signals) (o : Option ℕ) (phases : List ℕ)
    → ((p : ℕ) → elem p phases ≡ has_phase earlier p)
    → ((take_phase t sig o phases).0 ≡ phase_lines earlier t sig o)
      × ((p : ℕ) → elem p (take_phase t sig o phases).1 ≡ (equal o (some p) || has_phase earlier p))
unfolding take_phase elem
phases_after earlier t sig none phases h = (refl, h)
phases_after earlier t sig (some q) phases h = elim (Bool-cases (elem q phases)) [
  | inl shown ↦
      let before : has_phase earlier q ≡ true = sym (h q) ∙ shown in
      rw (shown, before) (refl, λ p. h p ∙ already earlier q p before)
  | inr new ↦
      let before : has_phase earlier q ≡ false = sym (h q) ∙ new in
      rw (new, before) (refl, λ p. ap (λ (b : Bool). q == p || b) (h p))
]
  where
    already :
        (earlier : List Signals) (q p : ℕ)
        → has_phase earlier q ≡ true
        → has_phase earlier p ≡ (q == p || has_phase earlier p)
    already earlier q p before = elim (Bool-cases (q == p)) [
      | inl same ↦
          rw same (subst (λ (k : ℕ). has_phase earlier k ≡ true) ((==_iff q p).0 same) before)
      | inr other ↦ rw other refl
    ]

-- A sample that repeats the retirement before it changes nothing.
repeated_sample :
    (all_inst : Bool) (earlier : List Signals) (t : ℤ) (sig : Signals) (seen : Seen)
    → Agrees earlier seen
    → is_valid sig ≡ true
    → key_is_last earlier sig ≡ true
    → (take_snapshot true all_inst t sig seen ≡ ([], seen)) × Agrees (sig ∷ earlier) seen
unfolding take_snapshot
repeated_sample all_inst earlier t sig seen h valid same =
    let again : is_last (key_of sig) seen.last_key ≡ true =
      ap (is_last (key_of sig)) h.last ∙ key_before-key_is_last earlier sig ∙ same in
    (
      rw (is_retire-is_valid sig, valid, again) refl,
      record {
        phases = λ p. h.phases p ∙ rw (valid, same) (ground arith);
        last = rw valid (is_last-eq (key_of sig) seen.last_key again);
      },
    )

-- Any other sample prints its lines.
new_sample :
    (all_inst : Bool) (earlier : List Signals) (t : ℤ) (sig : Signals) (seen : Seen)
    → Agrees earlier seen
    → repeats earlier sig ≡ false
    → ((take_snapshot true all_inst t sig seen).0 ≡ sample_lines all_inst earlier t sig)
      × Agrees (sig ∷ earlier) (take_snapshot true all_inst t sig seen).1
unfolding take_snapshot take_detail
new_sample all_inst earlier t sig seen h new =
    let o = known (text "phase_q") sig in
    let (shown, after) = phases_after earlier t sig o seen.phases h.phases in
    let step = first_value-known (text "phase_q") sig in
    elim (Bool-cases (is_valid sig)) [
      | inl valid ↦
          let no : key_is_last earlier sig ≡ false = ground (arith, new, valid) in
          let fresh : is_last (key_of sig) seen.last_key ≡ false =
            ap (is_last (key_of sig)) h.last ∙ key_before-key_is_last earlier sig ∙ no in
          rw (step, is_retire-is_valid sig, valid, fresh, no)
            (
              ap (λ (ls : List Text). retire_line all_inst t sig ∷ ls) shown,
              record {
                phases = λ p. after p ∙ rw (valid, no) (ground arith);
                last = rw valid refl;
              },
            )
      | inr other ↦
          rw (step, is_retire-is_valid sig, other)
            (
              shown,
              record {
                phases = λ p. after p ∙ rw other (ground arith);
                last = h.last ∙ rw other refl;
              },
            )
    ]

detailed_from :
    (all_inst : Bool) (earlier : List Signals) (seen : Seen) (tr : Trace)
    → Agrees earlier seen
    → report true all_inst seen tr ≡ detailed all_inst earlier tr
unfolding report
detailed_from all_inst earlier seen stop h = refl
detailed_from all_inst earlier seen (raise e) h = refl
detailed_from all_inst earlier seen (yield t sig rest) h = elim (Bool-cases (repeats earlier sig)) [
  | inl again ↦
      let valid : is_valid sig ≡ true = ground (arith, again) in
      let same : key_is_last earlier sig ≡ true = ground (arith, again) in
      let (kept, agrees) = repeated_sample all_inst earlier t sig seen h valid same in
      rw (kept, valid, same) (detailed_from all_inst (sig ∷ earlier) seen rest agrees)
  | inr new ↦
      let (shown, agrees) = new_sample all_inst earlier t sig seen h new in
      let after = (take_snapshot true all_inst t sig seen).1 in
      ap (λ (ls : List Text). print_all ls (report true all_inst after rest)) shown
      ∙ ap (print_all (sample_lines all_inst earlier t sig))
          (detailed_from all_inst (sig ∷ earlier) after rest agrees)
]

-- With --detail, for every trace: the report prints for each sample, in order, no line if the sample has
-- a valid retirement with the rvfi_order and the rvfi_pc_rdata of the valid sample before it; otherwise the
-- line of its retirement, if that is valid, and then the line of the pipeline state, if its phase_q is
-- known and no sample before it has that phase, but for samples that repeat a retirement. It ends with
-- status 0 or with the exception that ends the trace.
pub report-detailed :
    (all_inst : Bool) (tr : Trace) → report true all_inst nothing_seen tr ≡ detailed all_inst [] tr
report-detailed all_inst tr =
    detailed_from all_inst [] nothing_seen tr
      record { phases = λ p. unfold elem in refl; last = refl }
