-- ===== src/Vcd/RoundTrip/Lines.antt =====
-- The lines of a file that is written line by line.
use riscv_vibecoded.Vcd.Parse.{file_lines}
use riscv_vibecoded.Py.Text.Lines.{is_newline}
use riscv_vibecoded.Vcd.Writer.{write_lines, ends_line}
use riscv_vibecoded.Py.Text.{Text, push_head, rstrip}
use riscv_vibecoded.Py.Text.Strip.{Each, rstrip_last}
use riscv_vibecoded.Prelude.{false, List, [], ◌∷◌, ◌++◌, map, All, ◌≡◌, refl, ap, ◌∙◌, arith}

abbrev pub with_newline : Text → Text
with_newline l = l ++ b'\n' ∷ []

file_lines-line :
    (l rest : Text)
    → Each ends_line false l
    → file_lines false (l ++ b'\n' ∷ rest) ≡ with_newline l ∷ file_lines false rest
unfolding file_lines
file_lines-line [] rest h = refl
file_lines-line (c ∷ l) rest h = ground (arith, h.0, ap (push_head c) (file_lines-line l rest h.1))

pub file_lines-write_lines :
    (ls : List Text)
    → All (Each ends_line false) ls
    → file_lines false (write_lines ls) ≡ map with_newline ls
file_lines-write_lines [] h = unfold file_lines in refl
file_lines-write_lines (l ∷ ls) h =
    file_lines-line l (write_lines ls) h.0
    ∙ ap (◌∷◌ (with_newline l)) (file_lines-write_lines ls h.1)

not_newline : (s : Text) → Each ends_line false s → Each is_newline false s
not_newline [] h = tt
not_newline (c ∷ s) h = (ground (arith, h.0), not_newline s h.1)

pub rstrip-with_newline :
    (l : Text) → Each ends_line false l → rstrip is_newline (with_newline l) ≡ l
rstrip-with_newline l h = rstrip_last is_newline l b'\n' (not_newline l h) refl
