-- ===== src/Emulator/Bounds/Run.antt =====
-- tools/gen_expected.py: the values of the whole table and of the state after it.
use riscv_vibecoded.Emulator.{Retire, State}
use riscv_vibecoded.Emulator.Step.{commit, write_register, write_memory}
use riscv_vibecoded.Emulator.Run.Trace.{mem-commit, regs-commit}
use riscv_vibecoded.Emulator.Run.Reads.{item-write_register}
use riscv_vibecoded.Emulator.Bounds.Words.{IsWord}
use riscv_vibecoded.Emulator.Bounds.Rows.{Bounded}
use riscv_vibecoded.Py.Int.{ℤ, pos, eqb_ℤ}
use riscv_vibecoded.Py.Error.{ok}
use riscv_vibecoded.Py.Equality.{int_eq}
use riscv_vibecoded.Py.Dict.{at, get-put}
use riscv_vibecoded.Py.Seq.{item, set_item, place, at_place, set_place}
use riscv_vibecoded.Prelude.{
  ℕ, zero, suc, true, false, Option, none, some, List, [], ◌∷◌, get_elem?, set, length-set, ◌≡◌,
  ◌⊎◌, inl, inr, sym, ap, subst, ◌∙◌, Bool-cases, arith,
}

-- The state between two rounds: 32-bit words in registers and memory, and 0 in x0.
pub record WellFormed (s : State) : Type 0 where
  pub x0 : item s.regs (pos 0) ≡ ok (pos 0)
  pub regs : (i v : ℤ) → item s.regs i ≡ ok v → IsWord v
  pub mem : (p v : ℤ) → at p s.mem ≡ ok v → IsWord v

get_elem?-set_cases :
    (xs : List ℤ) (i j : ℕ) (v u : ℤ)
    → get_elem? (set xs i v) j ≡ some u
    → (u ≡ v) ⊎ (get_elem? xs j ≡ some u)
get_elem?-set_cases [] i j v u h = inr h
get_elem?-set_cases (x ∷ xs) zero zero v u h = inl (ground arith)
get_elem?-set_cases (x ∷ xs) zero (suc j) v u h = inr h
get_elem?-set_cases (x ∷ xs) (suc i) zero v u h = inr h
get_elem?-set_cases (x ∷ xs) (suc i) (suc j) v u h = get_elem?-set_cases xs i j v u h

place-set : (xs : List ℤ) (i : ℕ) (v k : ℤ) → place (set xs i v) k ≡ place xs k
place-set xs i v k = ground (arith, length-set xs i v)

place-set_place :
    (xs ys : List ℤ) (p : Option ℕ) (v k : ℤ) → set_place xs p v ≡ ok ys → place ys k ≡ place xs k
place-set_place xs ys none v k h = ground arith
place-set_place xs ys (some n) v k h =
    ap (λ (t : List ℤ). place t k) (sym (written h)) ∙ place-set xs n v k
  where
    written : ok (set xs n v) ≡ ok ys → set xs n v ≡ ys
    written h = ground arith

at_place-set_place :
    (xs ys : List ℤ) (p q : Option ℕ) (v u : ℤ)
    → set_place xs p v ≡ ok ys
    → at_place ys q ≡ ok u
    → (u ≡ v) ⊎ (at_place xs q ≡ ok u)
at_place-set_place xs ys none q v u h held = ground arith
at_place-set_place xs ys (some n) none v u h held = ground arith
at_place-set_place xs ys (some n) (some j) v u h held =
    ground (arith, get_elem?-set_cases xs n j v u)

-- What a list holds after a write: the new value, or what it held before.
item-set_item :
    (xs ys : List ℤ) (d v i u : ℤ)
    → set_item xs d v ≡ ok ys
    → item ys i ≡ ok u
    → (u ≡ v) ⊎ (item xs i ≡ ok u)
unfolding set_item item
item-set_item xs ys d v i u h held =
    at_place-set_place xs ys (place xs d) (place xs i) v u h
      (ap (at_place ys) (sym (place-set_place xs ys (place xs d) v i h)) ∙ held)

module _ (s : State) (r : Retire) (s' : State) (kept : commit s r ≡ ok s') (bounded : Bounded r)
    (before : WellFormed s) where
  commit-regs : (i v : ℤ) → item s'.regs i ≡ ok v → IsWord v
  commit-regs i v held = elim (Bool-cases (eqb_ℤ r.rda (pos 0))) [
    | inl none' ↦ before.regs i v (ap (λ (t : List ℤ). item t i) (unchanged none') ∙ held)
    | inr some' ↦ elim (item-set_item s.regs s'.regs r.rda r.rdw i v (written some') held) [
      | inl new ↦ subst IsWord (sym new) bounded.rdw
      | inr old ↦ before.regs i v old
    ]
  ]
    where
      unchanged : eqb_ℤ r.rda (pos 0) ≡ true → s.regs ≡ s'.regs
      unchanged e = unfold write_register in ground (arith, regs-commit s r s' kept)

      written : eqb_ℤ r.rda (pos 0) ≡ false → set_item s.regs r.rda r.rdw ≡ ok s'.regs
      written e = unfold write_register in ground (arith, regs-commit s r s' kept)

  commit-mem : (p v : ℤ) → at p s'.mem ≡ ok v → IsWord v
  commit-mem p v held = elim (Bool-cases (eqb_ℤ r.wm (pos 0))) [
    | inl none' ↦ before.mem p v (ap (at p) (sym (unchanged none')) ∙ held)
    | inr some' ↦ elim (Bool-cases (eqb_ℤ r.ma p)) [
      | inl same ↦ subst IsWord (new some' same) bounded.mwd
      | inr other ↦ before.mem p v (old some' other)
    ]
  ]
    where
      unchanged : eqb_ℤ r.wm (pos 0) ≡ true → s'.mem ≡ s.mem
      unchanged e = unfold write_memory in ground (arith, mem-commit s r s' kept)

      new : eqb_ℤ r.wm (pos 0) ≡ false → eqb_ℤ r.ma p ≡ true → r.mwd ≡ v
      new e same =
          unfold write_memory at in
          ground (arith, mem-commit s r s' kept, get-put r.ma p r.mwd s.mem)

      old : eqb_ℤ r.wm (pos 0) ≡ false → eqb_ℤ r.ma p ≡ false → at p s.mem ≡ ok v
      old e other =
          unfold write_memory at in
          ground (arith, mem-commit s r s' kept, get-put r.ma p r.mwd s.mem)

  pub commit-WellFormed : (n : ℕ) → r.rda ≡ pos n → WellFormed s'
  commit-WellFormed n named = record {
    x0 =
        item-write_register r s.regs s'.regs n 0 (pos 0) (regs-commit s r s' kept) named before.x0
        ∙ ground arith;
    regs = commit-regs;
    mem = commit-mem;
  }
