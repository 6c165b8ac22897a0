-- ===== src/Vcd/Snapshot.antt =====
-- tools/sby_retire_stream.py: what a snapshot holds under a name, and how a value is shown.
use riscv_vibecoded.Vcd.{Signals, base_name, fmt}
use riscv_vibecoded.Vcd.Parse.{append_value, snapshot_onto, snapshot, or_empty}
use riscv_vibecoded.Py.Dict.{get, put, get-put}
use riscv_vibecoded.Py.Text.{Text, text_eq, eq_text, eq_text_iff}
use riscv_vibecoded.Py.Text.Number.RoundTrip.{numeral_hexadecimal_inj}
use riscv_vibecoded.Prelude.{
  ℕ, List, [], ◌∷◌, ◌++◌, Option, none, some, Bool-cases, inl, inr, ◌≡◌, refl, ap, ◌∙◌,
  if◌then◌else◌, arith,
}
use mathlib.Core.List.{append_assoc}

-- The values of the instances of a name, in the order of their declarations.
abbrev pub column : Text → List (Text × Text) → List (Text × ℕ) → List (Option ℕ)
column n [] vals = []
column n ((wire, name) ∷ instances) vals =
    let rest = column n instances vals in
    if eq_text (base_name name) n then get wire vals ∷ rest else rest

abbrev extended : Option (List (Option ℕ)) → List (Option ℕ) → Option (List (Option ℕ))
extended old [] = old
extended old (v ∷ vs) = some (or_empty old ++ v ∷ vs)

extended-extended :
    (old : Option (List (Option ℕ))) (v : Option ℕ) (vs : List (Option ℕ))
    → extended (some (or_empty old ++ v ∷ [])) vs ≡ extended old (v ∷ vs)
extended-extended old v [] = refl
extended-extended old v (w ∷ vs) = ap some (append_assoc (or_empty old) (v ∷ []) (w ∷ vs))

get-snapshot_onto :
    (n : Text) (out : Signals) (instances : List (Text × Text)) (vals : List (Text × ℕ))
    → get n (snapshot_onto out instances vals) ≡ extended (get n out) (column n instances vals)
unfolding snapshot_onto append_value
get-snapshot_onto n out [] vals = refl
get-snapshot_onto n out ((wire, name) ∷ instances) vals =
    let k = base_name name in
    let v = get wire vals in
    get-snapshot_onto n (put k (or_empty (get k out) ++ v ∷ []) out) instances vals
    ∙ ap (λ (o : Option (List (Option ℕ))). extended o (column n instances vals))
        (get-put k n (or_empty (get k out) ++ v ∷ []) out)
    ∙ elim (Bool-cases (eq_text k n)) [
      | inl same ↦
          rw (same, (eq_text_iff k n).0 same)
            (extended-extended (get n out) v (column n instances vals))
      | inr other ↦ rw other refl
    ]

abbrev pub if_any : List (Option ℕ) → Option (List (Option ℕ))
if_any [] = none
if_any (v ∷ vs) = some (v ∷ vs)

extended_none : (n : Text) (vs : List (Option ℕ)) → extended (get ⦃e = text_eq⦄ n []) vs ≡ if_any vs
unfolding get
extended_none n [] = refl
extended_none n (v ∷ vs) = refl

-- For every wire table, every table of values and every name: a snapshot holds under that name the
-- values of the wires whose last path component is the name, in the order of their declarations, with
-- None for a wire that has no value, and has no such key when there is no such wire.
pub get-snapshot :
    (n : Text) (instances : List (Text × Text)) (vals : List (Text × ℕ))
    → get n (snapshot instances vals) ≡ if_any (column n instances vals)
unfolding snapshot
get-snapshot n instances vals =
    get-snapshot_onto n [] instances vals ∙ extended_none n (column n instances vals)

abbrev after_two : Text → Text
after_two [] = []
after_two (c ∷ []) = []
after_two (c ∷ d ∷ s) = s

-- Two values of a signal that are shown alike are the same: both numbers, and equal, or both None.
pub fmt_inj : (a b : Option ℕ) → fmt a ≡ fmt b → a ≡ b
unfolding fmt
fmt_inj none none e = refl
fmt_inj none (some b) e = ground arith
fmt_inj (some a) none e = ground arith
fmt_inj (some a) (some b) e = ap some (numeral_hexadecimal_inj a b (ap after_two e))
