-- ===== src/Emulator/Print/Ends.antt =====
-- tools/gen_expected.py: the printing comes to its end.
use riscv_vibecoded.Emulator.{Entry, Retire}
use riscv_vibecoded.Emulator.Preload.{preload}
use riscv_vibecoded.Emulator.Preload.Words.{or_zero}
use riscv_vibecoded.Emulator.Preload.Layout.{Placed, preload_layout}
use riscv_vibecoded.Emulator.Print.{
  insert, sorted_keys, title_line, table_lines, preload_line, print_words, emit_sv,
}
use riscv_vibecoded.Py.Int.{ℤ, eqb_ℤ, leb_ℤ}
use riscv_vibecoded.Py.Dict.{get, at}
use riscv_vibecoded.Py.Equality.{int_eq, eqb_ℤ_iff}
use riscv_vibecoded.Py.Error.{ok}
use riscv_vibecoded.Py.Output.{Output, prints, print_all}
use riscv_vibecoded.Py.Text.{Text, text}
use riscv_vibecoded.Prelude.{
  List, [], ◌∷◌, ◌++◌, All, some, Bool-cases, inl, inr, ◌≡◌, refl, ap, ◌∙◌,
}

-- A line for each of some keys.
abbrev pub word_lines : List ℤ → List (ℤ × ℤ) → List Text
word_lines [] d = []
word_lines (idx ∷ ks) d = preload_line idx (or_zero (get idx d)) ∷ word_lines ks d

-- A key that a dictionary has.
Held : List (ℤ × ℤ) → ℤ → Type 0
Held d k = (v : ℤ) × (get k d ≡ some v)

Held-later : (k v : ℤ) (d : List (ℤ × ℤ)) (j : ℤ) → Held d j → Held ((k, v) ∷ d) j
unfolding get Held
Held-later k v d j (w, h) = elim (Bool-cases (eqb_ℤ k j)) [
  | inl same ↦ rw same (v, refl)
  | inr other ↦ rw other (w, h)
]

All-later :
    (k v : ℤ) (d : List (ℤ × ℤ)) (ks : List ℤ) → All (Held d) ks → All (Held ((k, v) ∷ d)) ks
All-later k v d [] h = tt
All-later k v d (j ∷ ks) h = (Held-later k v d j h.0, All-later k v d ks h.1)

All-insert : (P : ℤ → Type 0) (k : ℤ) (ks : List ℤ) → P k → All P ks → All P (insert k ks)
All-insert P k [] h hs = (h, tt)
All-insert P k (j ∷ ks) h hs = elim (Bool-cases (leb_ℤ k j)) [
  | inl before ↦ rw before (h, hs)
  | inr after ↦ rw after (hs.0, All-insert P k ks h hs.1)
]

sorted_keys-Held : (d : List (ℤ × ℤ)) → All (Held d) (sorted_keys d)
unfolding sorted_keys
sorted_keys-Held [] = tt
sorted_keys-Held ((k, v) ∷ d) =
    All-insert (Held ((k, v) ∷ d)) k (sorted_keys d) (here k v d)
      (All-later k v d (sorted_keys d) (sorted_keys-Held d))
  where
    here : (k v : ℤ) (d : List (ℤ × ℤ)) → Held ((k, v) ∷ d) k
    here k v d = unfold get Held in (v, rw ((eqb_ℤ_iff k k).1 refl) refl)

print_words-word_lines :
    (ks : List ℤ) (d : List (ℤ × ℤ)) (next : Output)
    → All (Held d) ks
    → print_words ks d next ≡ print_all (word_lines ks d) next
unfolding print_words at Held
print_words-word_lines [] d next h = refl
print_words-word_lines (k ∷ ks) d next h =
    rw h.0.1 (ap (prints (preload_line k h.0.0)) (print_words-word_lines ks d next h.1))

print_all-append :
    (xs ys : List Text) (next : Output)
    → print_all xs (print_all ys next) ≡ print_all (xs ++ ys) next
print_all-append [] ys next = refl
print_all-append (x ∷ xs) ys next = ap (prints x) (print_all-append xs ys next)

-- For a program whose entries have 32-bit words at even addresses, at multiples of 4 those of the kinds
-- lui and addi, and for any rows: emit_sv raises no exception; it prints the title, two lines for each
-- row, the second title and one line for each index of the preload words, in order, and comes to its end.
pub emit_sv-word_lines :
    (prog : List Entry) (ret : List Retire) (order0 : ℤ) (next : Output)
    → All Placed prog
    → (d : List (ℤ × ℤ)) × (preload prog [] ≡ ok d)
      × (emit_sv prog ret order0 next
          ≡ print_all
              (title_line order0 ret ∷ table_lines order0 ret
                ++ text "// preload words:" ∷ word_lines (sorted_keys d) d)
              next)
unfolding emit_sv
emit_sv-word_lines prog ret order0 next all =
    let (d, success, value) = preload_layout prog 0 all refl in
    (
      d,
      success,
      rw success (
          ap (prints (title_line order0 ret)) (
            ap
              (λ (o : Output).
                print_all (table_lines order0 ret) (prints (text "// preload words:") o))
              (print_words-word_lines (sorted_keys d) d next (sorted_keys-Held d))
            ∙ print_all-append (table_lines order0 ret)
                (text "// preload words:" ∷ word_lines (sorted_keys d) d) next)),
    )
