-- ===== src/Emulator/Print/Layout.antt =====
-- tools/gen_expected.py: which line of the printed table is which.
use riscv_vibecoded.Emulator.{Retire}
use riscv_vibecoded.Emulator.Preload.Words.{or_zero}
use riscv_vibecoded.Emulator.Print.{row_lines, title_line, preload_line}
use riscv_vibecoded.Py.Int.{ℤ, pos, eqb_ℤ, leb_ℤ, ◌+ℤ◌}
use riscv_vibecoded.Py.Dict.{get}
use riscv_vibecoded.Py.Equality.{int_eq}
use riscv_vibecoded.Py.Output.{Output}
use riscv_vibecoded.Py.Text.{Text, text}
use riscv_vibecoded.Prelude.{
  ℕ, ◌+◌, ◌*◌, Bool, true, false, ◌||◌, List, [], ◌∷◌, length, get_elem?, some, ◌≡◌,
}

-- No key is above the one after it.
abbrev pub not_above : ℤ → List ℤ → Bool
not_above k [] = true
not_above k (j ∷ js) = leb_ℤ k j

abbrev pub Ascending : List ℤ → Type 0
Ascending [] = Unit
Ascending (k ∷ ks) = (not_above k ks ≡ true) × Ascending ks

-- Whether a list, or a dictionary, has a key.
abbrev pub among : ℤ → List ℤ → Bool
among x [] = false
among x (k ∷ ks) = eqb_ℤ k x || among x ks

abbrev pub has_key : ℤ → List (ℤ × ℤ) → Bool
has_key x [] = false
has_key x ((k, v) ∷ d) = eqb_ℤ k x || has_key x d

-- The lines for the rows ret, numbered from order0, and for the words of d.
pub record Printed (order0 : ℤ) (ret : List Retire) (d : List (ℤ × ℤ)) (lines : List Text)
    : Type 0 where
  pub keys : List ℤ
  pub ascending : Ascending keys
  pub complete : (k : ℤ) → among k keys ≡ has_key k d
  pub count : length lines ≡ 2 + 2 * length ret + length keys
  pub title : get_elem? lines 0 ≡ some (title_line order0 ret)
  pub row :
      (i : ℕ) (r : Retire)
      → get_elem? ret i ≡ some r
      → (get_elem? lines (1 + 2 * i) ≡ get_elem? (row_lines (order0 +ℤ pos i) r) 0)
        × (get_elem? lines (2 + 2 * i) ≡ get_elem? (row_lines (order0 +ℤ pos i) r) 1)
  pub heading : get_elem? lines (1 + 2 * length ret) ≡ some (text "// preload words:")
  pub word :
      (j : ℕ) (k : ℤ)
      → get_elem? keys j ≡ some k
      → get_elem? lines (2 + 2 * length ret + j) ≡ some (preload_line k (or_zero (get k d)))
