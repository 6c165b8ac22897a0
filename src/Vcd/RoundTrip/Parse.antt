-- ===== src/Vcd/RoundTrip/Parse.antt =====
-- The lines of a written file, one after the other, and the file as a whole.
use riscv_vibecoded.Vcd.Parse.{
  Parser, Trace, initial, parse_lines, parse_vcd, take_line, declare, yield_last, is_state,
}
use riscv_vibecoded.Vcd.Writer.{
  Header, var, command, Change, scalar, vector, Block, File, write_header, write_change,
  block_lines, lines_of, write, HeaderFits, ChangeFits, Fits, named, changed, snapshots, ends_line,
}
use riscv_vibecoded.Vcd.RoundTrip.Ends.{
  header_no_end, change_no_end, blocks_no_end, digits_no_end, All-map,
}
use riscv_vibecoded.Vcd.RoundTrip.Lines.{with_newline, file_lines-write_lines, rstrip-with_newline}
use riscv_vibecoded.Vcd.RoundTrip.Steps.{
  take_var, take_command, take_time, take_vector, take_scalar,
}
use riscv_vibecoded.Py.Int.{pos}
use riscv_vibecoded.Py.Text.{Text, text_eq}
use riscv_vibecoded.Py.Text.Strip.{Each}
use riscv_vibecoded.Py.Text.Number.{numeral}
use riscv_vibecoded.Py.Text.Number.RoundTrip.{numeral-digits}
use riscv_vibecoded.Prelude.{
  false, List, [], ◌∷◌, ◌++◌, map, some, All, All-append, Bool-cases, inl, inr, ◌≡◌, refl, ap, ◌∙◌,
}

-- One line of the file is one round of the loop.
parse_line :
    (p : Parser) (l : Text) (more : List Text)
    → Each ends_line false l
    → parse_lines p (with_newline l ∷ more) ≡ take_line p l (λ q. parse_lines q more)
unfolding parse_lines
parse_line p l more h = rw (rstrip-with_newline l h) refl

-- The parser after declarations, and after changes.
abbrev with_names : Parser → List Header → Parser
with_names p hs = record p { instances = named p.instances hs }

abbrev with_values : Parser → List Change → Parser
with_values p cs = record p { vals = changed p.instances p.vals cs }

parse_headers :
    (p : Parser) (hs : List Header) (more : List Text)
    → All HeaderFits hs
    → parse_lines p (map with_newline (map write_header hs ++ more))
      ≡ parse_lines (with_names p hs) (map with_newline more)
parse_headers p [] more h = unfold named in refl
parse_headers p (var width wire name ∷ hs) more h =
    let others : List Text = map with_newline (map write_header hs ++ more) in
    parse_line p (write_header (var width wire name)) others
      (header_no_end (var width wire name) h.0)
    ∙ take_var p (λ q. parse_lines q others) width wire name h.0.0 h.0.1
    ∙ parse_headers (declare p (some (wire, name))) hs more h.1
    ∙ elim (Bool-cases (is_state name)) [
      | inl state ↦ unfold named declare in rw state refl
      | inr driver ↦ unfold named declare in rw driver refl
    ]
parse_headers p (command s ∷ hs) more h =
    let others : List Text = map with_newline (map write_header hs ++ more) in
    parse_line p (b'$' ∷ s) others (header_no_end (command s) h.0)
    ∙ take_command p (λ q. parse_lines q others) s h.0.0
    ∙ parse_headers p hs more h.1
    ∙ unfold named in refl

take_change :
    (p : Parser) (rest : Parser → Trace) (c : Change)
    → ChangeFits c
    → take_line p (write_change c) rest ≡ rest (with_values p (c ∷ []))
unfolding changed
take_change p rest (scalar b wire) h = take_scalar p rest b wire h
take_change p rest (vector bs wire) h = take_vector p rest bs wire h.0 h.1

parse_changes :
    (p : Parser) (cs : List Change) (more : List Text)
    → All ChangeFits cs
    → parse_lines p (map with_newline (map write_change cs ++ more))
      ≡ parse_lines (with_values p cs) (map with_newline more)
parse_changes p [] more h = unfold changed in refl
parse_changes p (c ∷ cs) more h =
    let others : List Text = map with_newline (map write_change cs ++ more) in
    parse_line p (write_change c) others (change_no_end c h.0)
    ∙ take_change p (λ q. parse_lines q others) c h.0
    ∙ parse_changes (with_values p (c ∷ [])) cs more h.1
    ∙ unfold changed in refl

-- After a `#` line, the blocks that are left: the snapshot of a block comes with the next one, or at
-- the end.
parse_blocks :
    (p : Parser) (bs : List Block)
    → All (λ (b : Block). All ChangeFits b.changes) bs
    → parse_lines p (map with_newline (block_lines bs))
      ≡ yield_last p p.last_t (snapshots p.instances p.vals bs)
parse_blocks p [] h = unfold parse_lines snapshots in refl
parse_blocks p (b ∷ bs) h =
    let at : Parser = record p { last_t = some (pos b.time) } in
    let others : List Text = map with_newline (map write_change b.changes ++ block_lines bs) in
    parse_line p (b'#' ∷ numeral 10 b.time) others
      (refl, digits_no_end (numeral 10 b.time) (numeral-digits b.time))
    ∙ take_time p (λ q. parse_lines q others) b.time
    ∙ ap (yield_last p p.last_t) (
        parse_changes at b.changes (block_lines bs) h.0
        ∙ parse_blocks (with_values at b.changes) bs h.1
        ∙ unfold snapshots yield_last in refl)

-- For a VCD file of declarations and timed blocks of changes whose wires and names are identifiers,
-- whose vectors have a bit and whose other commands are one line and do not begin as a declaration does:
-- the generator, run on the text of the file, yields one snapshot for each block, in order, at its
-- time and of the values after its own changes, and then stops.
pub parse_vcd-write :
    (f : File) → Fits f → parse_vcd (write f) ≡ snapshots (named [] f.headers) [] f.blocks
parse_vcd-write f fits =
    let lines : All (Each ends_line false) (lines_of f) =
      All-append (Each ends_line false) (map write_header f.headers) (block_lines f.blocks)
        (All-map HeaderFits write_header header_no_end f.headers fits.headers)
        (blocks_no_end f.blocks fits.changes) in
    unfold parse_vcd in
    ap (parse_lines initial) (file_lines-write_lines (lines_of f) lines)
    ∙ parse_headers initial f.headers (block_lines f.blocks) fits.headers
    ∙ parse_blocks (with_names initial f.headers) f.blocks fits.changes
    ∙ unfold yield_last in refl
