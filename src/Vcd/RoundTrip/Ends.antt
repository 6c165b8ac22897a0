-- ===== src/Vcd/RoundTrip/Ends.antt =====
-- No written line has the end of a line in it.
use riscv_vibecoded.Vcd.Writer.{
  Header, var, command, Change, scalar, vector, Block, bit, write_header, write_change, block_lines,
  HeaderFits, ChangeFits, ends_line,
}
use riscv_vibecoded.Py.Text.{Text, text, is_space, is_digit}
use riscv_vibecoded.Py.Text.Strip.{Each}
use riscv_vibecoded.Py.Text.Number.{numeral}
use riscv_vibecoded.Py.Text.Number.RoundTrip.{numeral-digits}
use riscv_vibecoded.Prelude.{
  ℕ, Bool, true, false, List, [], ◌∷◌, ◌++◌, map, All, All-append, ◌≡◌, refl, arith,
}

solid_no_end : (s : Text) → Each is_space false s → Each ends_line false s
solid_no_end [] h = tt
solid_no_end (c ∷ s) h = (unfold is_space in ground (arith, h.0), solid_no_end s h.1)

pub digits_no_end : (s : Text) → Each is_digit true s → Each ends_line false s
digits_no_end [] h = tt
digits_no_end (c ∷ s) h = (unfold is_digit in ground (arith, h.0), digits_no_end s h.1)

bits_no_end : (bs : List Bool) → Each ends_line false (map bit bs)
bits_no_end [] = tt
bits_no_end (false ∷ bs) = (refl, bits_no_end bs)
bits_no_end (true ∷ bs) = (refl, bits_no_end bs)

Each-append :
    (s t : Text) → Each ends_line false s → Each ends_line false t → Each ends_line false (s ++ t)
Each-append = All-append (λ (c : ℕ). ends_line c ≡ false)

pub header_no_end : (h : Header) → HeaderFits h → Each ends_line false (write_header h)
header_no_end (var width wire name) (hw, hn) =
    let end : Each ends_line false (text " $end") = (refl, (refl, (refl, (refl, (refl, tt))))) in
    let s4 = Each-append name (text " $end") (solid_no_end name hn.solid) end in
    let s2 =
      Each-append wire (b' ' ∷ (name ++ text " $end")) (solid_no_end wire hw.solid) (refl, s4) in
    let s1 =
      Each-append (numeral 10 width) (b' ' ∷ (wire ++ (b' ' ∷ (name ++ text " $end"))))
        (digits_no_end (numeral 10 width) (numeral-digits width)) (refl, s2) in
    Each-append (text "$var wire ")
      (numeral 10 width ++ (b' ' ∷ (wire ++ (b' ' ∷ (name ++ text " $end")))))
      (refl, (refl, (refl, (refl, (refl, (refl, (refl, (refl, (refl, (refl, tt)))))))))) s1
header_no_end (command s) h = (refl, h.1)

pub change_no_end : (c : Change) → ChangeFits c → Each ends_line false (write_change c)
change_no_end (scalar false wire) h = (refl, solid_no_end wire h.solid)
change_no_end (scalar true wire) h = (refl, solid_no_end wire h.solid)
change_no_end (vector bs wire) h = (
  refl,
  Each-append (map bit bs) (b' ' ∷ wire) (bits_no_end bs) (refl, solid_no_end wire h.1.solid),
)

pub All-map :
    {A : Type 0} (P : A → Type 0) (f : A → Text)
    → ((a : A) → P a → Each ends_line false (f a))
    → (as' : List A) → All P as'
    → All (Each ends_line false) (map f as')
All-map P f each [] h = tt
All-map P f each (a ∷ as') h = (each a h.0, All-map P f each as' h.1)

pub blocks_no_end :
    (bs : List Block)
    → All (λ (b : Block). All ChangeFits b.changes) bs
    → All (Each ends_line false) (block_lines bs)
blocks_no_end [] h = tt
blocks_no_end (b ∷ bs) h = (
  (refl, digits_no_end (numeral 10 b.time) (numeral-digits b.time)),
  All-append (Each ends_line false) (map write_change b.changes) (block_lines bs)
      (All-map ChangeFits write_change change_no_end b.changes h.0) (blocks_no_end bs h.1),
)
