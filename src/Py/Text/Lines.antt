-- ===== src/Py/Text/Lines.antt =====
-- Joining lines and splitting them again.
use riscv_vibecoded.Py.Text.{Text, text, split, join}
use riscv_vibecoded.Py.Text.Strip.{Each}
use riscv_vibecoded.Prelude.{
  ℕ, Bool, false, ◌==◌, List, [], ◌∷◌, ◌++◌, All, ◌≡◌, ◌≢◌, refl, ap, ◌∙◌, arith,
}

abbrev pub is_newline : ℕ → Bool
is_newline c = c == b'\n'

split-line :
    (s rest : Text)
    → Each is_newline false s
    → split b'\n' (s ++ text "\n" ++ rest) ≡ s ∷ split b'\n' rest
unfolding split
split-line [] rest h = refl
split-line (c ∷ s) rest h = rw (h.0, split-line s rest h.1) refl

split_last : (s : Text) → Each is_newline false s → split b'\n' s ≡ s ∷ []
unfolding split
split_last [] h = refl
split_last (c ∷ s) h = rw (h.0, split_last s h.1) refl

-- Lines without newlines, at least one of them.
pub split-join :
    (ls : List Text)
    → ls ≢ []
    → All (Each is_newline false) ls
    → split b'\n' (join (text "\n") ls) ≡ ls
unfolding join
split-join [] ne h = absurd (ne refl)
split-join (s ∷ []) ne h = split_last s h.0
split-join (s ∷ t ∷ ss) ne h =
    split-line s (join (text "\n") (t ∷ ss)) h.0
    ∙ ap (◌∷◌ s) (split-join (t ∷ ss) (λ e. ground arith) h.1)
