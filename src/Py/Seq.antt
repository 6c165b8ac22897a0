-- ===== src/Py/Seq.antt =====
-- Subscripts of Python's lists and tuples: a negative one counts from the end, and one out of
-- range is an IndexError.
use riscv_vibecoded.Py.Int.{ℤ, pos, negsuc}
use riscv_vibecoded.Py.Error.{Result, ok, err, index_error}
use riscv_vibecoded.Prelude.{
  ℕ, ◌-◌, ◌<◌, Option, none, some, List, length, get_elem?, set, ltb, if◌then◌else◌, ◌≡◌, ◌≢◌,
  false, ◌==◌, ==_iff, Bool-cases, inl, inr, subst, ◌∙◌, length-set, get_elem?-set_self,
  get_elem?-set_ne, arith,
}

module _ {ℓ} {A : Type ℓ} where
  -- The place that a subscript means.
  abbrev pub place : List A → ℤ → Option ℕ
  place xs (pos i) = if ltb i (length xs) then some i else none
  place xs (negsuc i) = if ltb i (length xs) then some (length xs - 1 - i) else none

  abbrev pub or_index_error : Option A → Result A
  or_index_error none = err index_error
  or_index_error (some a) = ok a

  abbrev pub at_place : List A → Option ℕ → Result A
  at_place xs none = err index_error
  at_place xs (some i) = or_index_error (get_elem? xs i)

  -- xs[i]
  unfoldable pub item : List A → ℤ → Result A
  item xs i = at_place xs (place xs i)

  abbrev pub set_place : List A → Option ℕ → A → Result (List A)
  set_place xs none v = err index_error
  set_place xs (some i) v = ok (set xs i v)

  -- xs[i] = v
  unfoldable pub set_item : List A → ℤ → A → Result (List A)
  set_item xs i v = set_place xs (place xs i) v

  pub set_item-eq_ok :
      (xs ys : List A) (d : ℕ) (v : A)
      → set_item xs (pos d) v ≡ ok ys
      → (d < length xs) × (ys ≡ set xs d v)
  unfolding set_item
  set_item-eq_ok xs ys d v h = ground arith

  pub item-eq_ok :
      (xs : List A) (x : ℕ) (v : A)
      → item xs (pos x) ≡ ok v
      → (x < length xs) × (get_elem? xs x ≡ some v)
  unfolding item
  item-eq_ok xs x v h = ground arith

  pub eq_ok-item :
      (xs : List A) (x : ℕ) (v : A)
      → x < length xs
      → get_elem? xs x ≡ some v
      → item xs (pos x) ≡ ok v
  unfolding item
  eq_ok-item xs x v h e = ground arith

  -- Reading after a write.
  pub item-set_item :
      (xs ys : List A) (d x : ℕ) (v w : A)
      → set_item xs (pos d) v ≡ ok ys
      → item xs (pos x) ≡ ok w
      → item ys (pos x) ≡ ok (if d == x then v else w)
  item-set_item xs ys d x v w h k =
      let (below, written) = set_item-eq_ok xs ys d v h in
      let (inside, read) = item-eq_ok xs x w k in
      rw written (
        eq_ok-item (set xs d v) x (if d == x then v else w) (rw (length-set xs d v) inside)
          (elim (Bool-cases (d == x)) [
            | inl e ↦ rw e (
                subst (λ (t : ℕ). get_elem? (set xs d v) t ≡ some v) ((==_iff d x).0 e)
                  (get_elem?-set_self xs d v below))
            | inr e ↦ rw e (get_elem?-set_ne xs d x v (λ p. ne e p) ∙ read)
          ]))
    where
      ne : (d == x) ≡ false → d ≢ x
      ne e p = ground arith
