-- ===== src/Formal/ReadLine.antt =====
-- scripts/formal_m1_gen.py and formal_m2_gen.py: the line that reads a check and its wrapper.
use riscv_vibecoded.Formal.Rewrite.{longer_than, match_read, replace_read, rewrite_line, split_read}
use riscv_vibecoded.Py.Text.{join, Text, text, eq_text, eq_text_iff, is_space, not_space, ends_with}
use riscv_vibecoded.Py.Text.Match.{some_of-append}
use riscv_vibecoded.Py.Text.Lines.{is_newline, split-join}
use riscv_vibecoded.Py.Text.Strip.{Each, after_prefix-append}
use riscv_vibecoded.Prelude.{
  map, All, none, List, ◌∙◌, ℕ, ◌+◌, true, false, not, [], ◌∷◌, ◌++◌, length, some, ◌≡◌, ◌≢◌, refl,
  ap, arith,
}

ends_with_self : (s : Text) → ends_with s s ≡ true
unfolding ends_with
ends_with_self [] = unfold eq_text in refl
ends_with_self (c ∷ s) = rw ((eq_text_iff (c ∷ s) (c ∷ s)).1 refl) refl

ends_with-append : (s t : Text) → ends_with (s ++ t) t ≡ true
unfolding ends_with
ends_with-append [] t = ends_with_self t
ends_with-append (c ∷ s) t = ground (arith, ends_with-append s t)

length-append : (s t : Text) → length (s ++ t) ≡ length s + length t
length-append [] t = omega arith
length-append (c ∷ s) t = omega (arith, length-append s t)

longer_than-append : (c : ℕ) (s suffix : Text) → longer_than suffix (c ∷ s ++ suffix) ≡ true
longer_than-append c s suffix =
    ground (arith, ends_with-append (c ∷ s) suffix, length-append s suffix)

append-ne : (c : ℕ) (s t : Text) → (c ∷ s) ++ t ≢ []
append-ne c s t e = ground arith

not_space-append :
    (s t : Text) → Each is_space false s → Each not_space true t → Each not_space true (s ++ t)
not_space-append [] t h k = k
not_space-append (c ∷ s) t h k = (ap not h.0, not_space-append s t h.1 k)

match_read_line :
    (stem w : Text) (c d : ℕ)
    → Each is_space false (c ∷ stem)
    → match_read
        (text "read -sv " ++ ((c ∷ stem ++ text ".sv") ++ (b' ' ∷ (d ∷ w ++ text "wrapper.sv"))))
      ≡ some (c ∷ stem ++ text ".sv")
unfolding match_read
match_read_line stem w c d solid =
    let check : Text = c ∷ stem ++ text ".sv" in
    let wrapper : Text = d ∷ w ++ text "wrapper.sv" in
    rw
      (
        after_prefix-append (text "read -sv ") (check ++ (b' ' ∷ wrapper)),
        some_of-append not_space check b' ' wrapper (append-ne c stem (text ".sv"))
            (not_space-append (c ∷ stem) (text ".sv") solid
              (unfold is_space in (refl, (refl, (refl, tt)))))
            (unfold is_space in refl),
        after_prefix-append (text " ") wrapper,
        longer_than-append c stem (text ".sv"),
        longer_than-append d w (text "wrapper.sv"),
      )
      refl

rewrite_line_read :
    (sv_read stem w : Text) (c d : ℕ)
    → Each is_space false (c ∷ stem)
    → rewrite_line sv_read
        (text "read -sv " ++ ((c ∷ stem ++ text ".sv") ++ (b' ' ∷ (d ∷ w ++ text "wrapper.sv"))))
      ≡ sv_read ++ (text "\nread_verilog -sv " ++ (c ∷ stem ++ text ".sv"))
unfolding rewrite_line
rewrite_line_read sv_read stem w c d solid =
    ap
      (replace_read sv_read
        (text "read -sv " ++ ((c ∷ stem ++ text ".sv") ++ (b' ' ∷ (d ∷ w ++ text "wrapper.sv")))))
      (match_read_line stem w c d solid)

rewrite_others :
    (sv_read : Text) (ls : List Text)
    → All (λ (l : Text). match_read l ≡ none) ls
    → map (rewrite_line sv_read) ls ≡ ls
unfolding rewrite_line
rewrite_others sv_read [] h = refl
rewrite_others sv_read (l ∷ ls) h = rw (h.0, rewrite_others sv_read ls h.1) refl

map-append :
    (f : Text → Text) (ls : List Text) (l : Text) (rest : List Text)
    → map f (ls ++ l ∷ rest) ≡ map f ls ++ f l ∷ map f rest
map-append f [] l rest = refl
map-append f (k ∷ ls) l rest = ap (◌∷◌ (f k)) (map-append f ls l rest)

append-ne_nil : (ls : List Text) (l : Text) (rest : List Text) → ls ++ l ∷ rest ≢ []
append-ne_nil [] l rest e = ground arith
append-ne_nil (k ∷ ls) l rest e = ground arith

-- The line that reads a check and a wrapper.
abbrev pub read_line : Text → Text → Text
read_line check wrapper = text "read -sv " ++ (check ++ (b' ' ∷ wrapper))

-- For a content of lines of which one reads a check and a wrapper, and none of the others is such a line,
-- where the name of the check has no white space and something before `.sv`, and the path of the wrapper
-- something before `wrapper.sv`: that line becomes two, one that reads the sources of the core, and one
-- that reads the check and not the wrapper, and the other lines stay as they are.
pub split_read_lem :
    (sv_read stem w : Text) (c d : ℕ) (before after : List Text)
    → Each is_space false (c ∷ stem)
    → All
        (Each is_newline false)
        (before ++ read_line (c ∷ stem ++ text ".sv") (d ∷ w ++ text "wrapper.sv") ∷ after)
    → All (λ (l : Text). match_read l ≡ none) before
    → All (λ (l : Text). match_read l ≡ none) after
    → split_read sv_read (
        join
          (text "\n")
          (before ++ read_line (c ∷ stem ++ text ".sv") (d ∷ w ++ text "wrapper.sv") ∷ after))
      ≡ join
          (text "\n")
          (before ++ (sv_read ++ (text "\nread_verilog -sv " ++ (c ∷ stem ++ text ".sv"))) ∷ after)
unfolding split_read
split_read_lem sv_read stem w c d before after solid lines others others' =
    let line = read_line (c ∷ stem ++ text ".sv") (d ∷ w ++ text "wrapper.sv") in
    ap (join (text "\n")) (
      ap (map (rewrite_line sv_read))
        (split-join (before ++ line ∷ after) (append-ne_nil before line after) lines)
      ∙ map-append (rewrite_line sv_read) before line after
      ∙ rw
          (
            rewrite_others sv_read before others,
            rewrite_others sv_read after others',
            rewrite_line_read sv_read stem w c d solid,
          )
          refl)
