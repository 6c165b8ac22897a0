-- ===== src/Vcd/RoundTrip/Steps.antt =====
-- What one written line does to the parser.
use riscv_vibecoded.Vcd.Line.{match_var, match_vector, is_bit}
use riscv_vibecoded.Vcd.Parse.{
  Parser, Trace, take_line, declare, set_vector, set_scalar, set_time, is_declared, yield_last,
}
use riscv_vibecoded.Vcd.Writer.{
  var, scalar, vector, bit, write_header, write_change, IsName, number_of,
}
use riscv_vibecoded.Py.Int.{pos}
use riscv_vibecoded.Py.Dict.{get, put}
use riscv_vibecoded.Py.Error.{ok}
use riscv_vibecoded.Py.Text.{
  Text, text, text_eq, is_space, is_digit, is_word, not_space, starts_with,
}
use riscv_vibecoded.Py.Text.Strip.{Each, after_prefix-append, starts_with-append}
use riscv_vibecoded.Py.Text.Number.{numeral, binary_onto}
use riscv_vibecoded.Py.Text.Number.RoundTrip.{int_of-numeral, numeral-digits, numeral-ne-nil}
use riscv_vibecoded.Py.Text.Match.{some_of, some_of-append, some_of_all}
use riscv_vibecoded.Prelude.{
  ℕ, ◌+◌, ◌*◌, Bool, true, false, not, List, [], ◌∷◌, ◌++◌, map, some, ◌≡◌, ◌≢◌, refl, ap,
  if◌then◌else◌, arith,
}

not_space_solid : (s : Text) → Each is_space false s → Each not_space true s
not_space_solid [] h = tt
not_space_solid (c ∷ s) h = (ap not h.0, not_space_solid s h.1)

-- The word before a space, and the rest.
word_before :
    (p : ℕ → Bool) (s rest : Text)
    → s ≢ []
    → Each p true s
    → p b' ' ≡ false
    → some_of p (s ++ b' ' ∷ rest) ≡ some (s, b' ' ∷ rest)
word_before p s rest = some_of-append p s b' ' rest

match_var-header :
    (width : ℕ) (wire name : Text)
    → IsName wire
    → IsName name
    → match_var (write_header (var width wire name)) ≡ some (wire, name)
unfolding match_var
match_var-header width wire name hw hn =
    let s6 : Text = name ++ text " $end" in
    let s4 : Text = wire ++ b' ' ∷ s6 in
    let s2 : Text = numeral 10 width ++ b' ' ∷ s4 in
    rw
      (
        after_prefix-append (text "$var ") (text "wire " ++ s2),
        word_before is_word (text "wire") s2 (λ e. ground arith)
            (unfold is_word in (refl, (refl, (refl, (refl, tt))))) (unfold is_word in refl),
        after_prefix-append (text " ") s2,
        word_before is_digit (numeral 10 width) s4 (numeral-ne-nil width) (numeral-digits width)
            (unfold is_digit in refl),
        after_prefix-append (text " ") s4,
        word_before not_space wire s6 hw.ne_nil (not_space_solid wire hw.solid)
            (unfold is_space in refl),
        after_prefix-append (text " ") s6,
        word_before not_space name (text "$end") hn.ne_nil (not_space_solid name hn.solid)
            (unfold is_space in refl),
      )
      refl

bits_are : (bs : List Bool) → Each is_bit true (map bit bs)
unfolding is_bit
bits_are [] = tt
bits_are (false ∷ bs) = (refl, bits_are bs)
bits_are (true ∷ bs) = (refl, bits_are bs)

map-ne-nil : (bs : List Bool) → bs ≢ [] → map bit bs ≢ []
map-ne-nil [] ne e = ne refl
map-ne-nil (b ∷ bs) ne e = ground arith

-- A space before a name is the only white space there.
one_space : (wire : Text) → IsName wire → some_of is_space (b' ' ∷ wire) ≡ some (b' ' ∷ [], wire)
one_space [] h = absurd (h.ne_nil refl)
one_space (c ∷ wire) h =
    some_of-append is_space (b' ' ∷ []) c wire (λ e. ground arith) (unfold is_space in refl, tt)
      h.solid.0

pub match_vector-bits :
    (bits wire : Text)
    → bits ≢ []
    → Each is_bit true bits
    → IsName wire
    → match_vector (b'b' ∷ bits ++ b' ' ∷ wire) ≡ some (bits, wire)
unfolding match_vector
match_vector-bits bits wire hb each hw =
    rw
      (
        after_prefix-append (text "b") (bits ++ b' ' ∷ wire),
        word_before is_bit bits wire hb each (unfold is_bit in refl),
        one_space wire hw,
        some_of_all not_space wire hw.ne_nil (not_space_solid wire hw.solid),
      )
      refl

match_vector-change :
    (bs : List Bool) (wire : Text)
    → bs ≢ []
    → IsName wire
    → match_vector (write_change (vector bs wire)) ≡ some (map bit bs, wire)
match_vector-change bs wire hb hw =
    match_vector-bits (map bit bs) wire (map-ne-nil bs hb) (bits_are bs) hw

binary_onto-number_of : (n : ℕ) (bs : List Bool) → binary_onto n (map bit bs) ≡ ok (number_of n bs)
unfolding binary_onto
binary_onto-number_of n [] = refl
binary_onto-number_of n (false ∷ bs) = rw (binary_onto-number_of (n * 2 + 0) bs)
binary_onto-number_of n (true ∷ bs) = rw (binary_onto-number_of (n * 2 + 1) bs)

-- What each kind of line does to the parser.
module _ (p : Parser) (rest : Parser → Trace) where
  pub take_var :
      (width : ℕ) (wire name : Text)
      → IsName wire
      → IsName name
      → take_line p (write_header (var width wire name)) rest ≡ rest (declare p (some (wire, name)))
  unfolding take_line
  take_var width wire name hw hn =
      rw
        (
          starts_with-append (text "$var") (
              text " wire "
              ++ (numeral 10 width ++ (b' ' ∷ (wire ++ (b' ' ∷ (name ++ text " $end")))))),
          match_var-header width wire name hw hn,
        )
        refl

  pub take_command :
      (s : Text)
      → starts_with (b'$' ∷ s) (text "$var") ≡ false
      → take_line p (b'$' ∷ s) rest ≡ rest p
  unfolding take_line set_scalar is_bit starts_with
  take_command [] other = refl
  take_command (d ∷ s) other = rw other refl

  pub take_time :
      (t : ℕ)
      → take_line p (b'#' ∷ numeral 10 t) rest
        ≡ yield_last p p.last_t (rest (record p { last_t = some (pos t) }))
  unfolding take_line set_time starts_with
  take_time t = rw (int_of-numeral t) refl

  pub take_vector :
      (bs : List Bool) (wire : Text)
      → bs ≢ []
      → IsName wire
      → take_line p (write_change (vector bs wire)) rest
        ≡ rest (record p {
          vals =
              if is_declared (get wire p.instances)
              then put wire (number_of 0 bs) p.vals
              else p.vals;
        })
  unfolding take_line starts_with
  take_vector bs wire hb hw =
      rw (match_vector-change bs wire hb hw)
        (unfold set_vector in ground (arith, binary_onto-number_of 0 bs))

  pub take_scalar :
      (b : Bool) (wire : Text)
      → IsName wire
      → take_line p (write_change (scalar b wire)) rest
        ≡ rest (record p {
          vals =
              if is_declared (get wire p.instances)
              then put wire (if b then 1 else 0) p.vals
              else p.vals;
        })
  unfolding take_line starts_with set_scalar is_bit
  take_scalar b [] hw = absurd (hw.ne_nil refl)
  take_scalar false (d ∷ wire) hw = ground arith
  take_scalar true (d ∷ wire) hw = ground arith
