-- ===== src/Py/Dict.antt =====
-- Python's `dict`, as an association list in the order of insertion.
use riscv_vibecoded.Py.Equality.{Eq}
use riscv_vibecoded.Py.Error.{Result, ok, err, key_error}
use riscv_vibecoded.Prelude.{◌≡◌, refl, Option, none, some, List, [], ◌∷◌, arith, if◌then◌else◌}

-- d[k] of what d.get(k) is
abbrev pub or_key_error {ℓ} : {V : Type ℓ} → Option V → Result V
or_key_error none = err key_error
or_key_error (some v) = ok v

module _ {ℓ κ} {K : Type κ} {V : Type ℓ} ⦃e : Eq K⦄ where
  -- d.get(k)
  unfoldable pub get : K → List (K × V) → Option V
  get k [] = none
  get k ((j, v) ∷ d) = if e.same j k then some v else get k d

  -- d[k] = v keeps the place of a key that is there.
  unfoldable pub put : K → V → List (K × V) → List (K × V)
  put k v [] = (k, v) ∷ []
  put k v ((j, w) ∷ d) = if e.same j k then (k, v) ∷ d else (j, w) ∷ put k v d

  -- d[k]
  unfoldable pub at : K → List (K × V) → Result V
  at k d = or_key_error (get k d)

  pub get-put :
      (k j : K) (v : V) (d : List (K × V))
      → get j (put k v d) ≡ (if e.same k j then some v else get j d)
  unfolding get put
  get-put k j v [] = refl
  get-put k j v ((i, w) ∷ d) =
      ground (arith, e.same_iff i k, e.same_iff i j, e.same_iff k j, get-put k j v d)
