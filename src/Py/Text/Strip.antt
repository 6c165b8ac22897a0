-- ===== src/Py/Text/Strip.antt =====
-- What strips, runs and splits do to texts whose characters are known.
use riscv_vibecoded.Py.Text.{Text, rstrip, lstrip, run_of, after_prefix, starts_with}
use riscv_vibecoded.Prelude.{ℕ, Bool, true, false, [], ◌∷◌, ◌++◌, ==_iff, All, some, ◌≡◌, refl}

abbrev pub Each : (ℕ → Bool) → Bool → Text → Type 0
Each p b = All (λ (c : ℕ). p c ≡ b)

pub rstrip_none : (p : ℕ → Bool) (s : Text) → Each p false s → rstrip p s ≡ s
unfolding rstrip
rstrip_none p [] h = refl
rstrip_none p (c ∷ []) h = rw h.0 refl
rstrip_none p (c ∷ d ∷ s) h = rw (rstrip_none p (d ∷ s) h.1) refl

-- A last character of the class goes, and only that.
pub rstrip_last :
    (p : ℕ → Bool) (s : Text) (c : ℕ) → Each p false s → p c ≡ true → rstrip p (s ++ c ∷ []) ≡ s
unfolding rstrip
rstrip_last p [] c h e = rw e refl
rstrip_last p (d ∷ []) c h e = rw (rstrip_last p [] c tt e, h.0) refl
rstrip_last p (d ∷ d' ∷ s) c h e = rw (rstrip_last p (d' ∷ s) c h.1 e) refl

pub lstrip_none : (p : ℕ → Bool) (s : Text) → Each p false s → lstrip p s ≡ s
unfolding lstrip
lstrip_none p [] h = refl
lstrip_none p (c ∷ s) h = rw h.0 refl

-- A run ends at the first character outside the class.
pub run_of-append :
    (p : ℕ → Bool) (s : Text) (c : ℕ) (rest : Text)
    → Each p true s
    → p c ≡ false
    → run_of p (s ++ c ∷ rest) ≡ (s, c ∷ rest)
unfolding run_of
run_of-append p [] c rest h e = rw e refl
run_of-append p (d ∷ s) c rest h e = rw (run_of-append p s c rest h.1 e, h.0) refl

pub run_of_all : (p : ℕ → Bool) (s : Text) → Each p true s → run_of p s ≡ (s, [])
unfolding run_of
run_of_all p [] h = refl
run_of_all p (d ∷ s) h = rw (run_of_all p s h.1, h.0) refl

pub after_prefix-append : (p s : Text) → after_prefix (p ++ s) p ≡ some s
unfolding after_prefix
after_prefix-append [] s = refl
after_prefix-append (c ∷ p) s = rw ((==_iff c c).1 refl) (after_prefix-append p s)

pub starts_with-append : (p s : Text) → starts_with (p ++ s) p ≡ true
unfolding starts_with
starts_with-append [] s = refl
starts_with-append (c ∷ p) s = rw ((==_iff c c).1 refl) (starts_with-append p s)
