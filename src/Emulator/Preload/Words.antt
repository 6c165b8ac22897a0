-- ===== src/Emulator/Preload/Words.antt =====
-- tools/gen_expected.py, `emit_sv`: what one round of the preload loop does to the words.
use riscv_vibecoded.Emulator.{Entry}
use riscv_vibecoded.Bits.{or_low, or_field, bit_and_mask, bit_and_shifted}
use riscv_vibecoded.Py.Int.{ℤ, pos, pos_part, ◌&ℤ◌, ◌|ℤ◌, ◌<<ℤ◌, ◌>>ℤ◌, eqb_ℤ}
use riscv_vibecoded.Py.Error.{ok}
use riscv_vibecoded.Py.Equality.{int_eq, eqb_ℤ_iff}
use riscv_vibecoded.Py.Dict.{get, put, at, get-put}
use riscv_vibecoded.Prelude.{
  ℕ, ◌+◌, ◌*◌, ◌/◌, ◌%◌, ◌^◌, ◌<◌, if◌then◌else◌, Option, none, some, List, ◌≡◌, ap, ◌∙◌, arith,
}
use riscv_vibecoded.Emulator.Preload.{set_default, fills_word, preload_entry}

-- The word at an index, 0 where the dictionary has none.
abbrev pub or_zero : Option ℤ → ℤ
or_zero none = pos 0
or_zero (some v) = v

set_low :
    (v m : ℕ)
    → v < 2 ^ 32
    → (pos v &ℤ pos 0xFFFF0000 |ℤ pos m &ℤ pos 0xFFFF) ≡ pos (v / 2 ^ 16 * 2 ^ 16 + m % 2 ^ 16)
unfolding ◌&ℤ◌ ◌|ℤ◌
set_low v m h =
    rw (bit_and_shifted 16 0xFFFF v, bit_and_mask 16 (v / 2 ^ 16), bit_and_mask 16 m)
      (ap pos (
        or_low 16 (v / 2 ^ 16 % 2 ^ 16 * 2 ^ 16) (m % 2 ^ 16) (omega arith) (omega arith)
        ∙ omega arith))

set_high :
    (v m : ℕ)
    → (pos v &ℤ pos 0x0000FFFF |ℤ (pos m &ℤ pos 0xFFFF) <<ℤ 16)
      ≡ pos (v % 2 ^ 16 + m % 2 ^ 16 * 2 ^ 16)
unfolding ◌&ℤ◌ ◌|ℤ◌ ◌<<ℤ◌
set_high v m =
    rw (bit_and_mask 16 v, bit_and_mask 16 m)
      (ap pos (or_field 16 16 (v % 2 ^ 16) (m % 2 ^ 16) (omega arith) (omega arith)))

abbrev pub word_at : List (ℤ × ℤ) → ℤ → ℕ
word_at d k = pos_part (or_zero (get k d))

-- Every word of the dictionary is one of 32 bits.
abbrev pub Words : List (ℤ × ℤ) → Type 0
Words d = (k : ℤ) → (or_zero (get k d) ≡ pos (word_at d k)) × (word_at d k < 2 ^ 32)

-- One round sets the word of its entry, and leaves the others.
abbrev pub updated : Entry → ℕ → ℕ
updated e v =
    if fills_word e.kind
    then pos_part e.word
    else if eqb_ℤ (e.addr &ℤ pos 3) (pos 0)
    then v / 2 ^ 16 * 2 ^ 16 + pos_part e.word % 2 ^ 16
    else v % 2 ^ 16 + pos_part e.word % 2 ^ 16 * 2 ^ 16

get-set_default :
    (k j : ℤ) (d : List (ℤ × ℤ)) → or_zero (get j (set_default k (pos 0) d)) ≡ or_zero (get j d)
unfolding set_default
get-set_default k j d =
    ground (arith, get-put k j (pos 0) d, eqb_ℤ_iff k j, ap (λ (t : ℤ). get t d))

at-set_default :
    (k : ℤ) (d : List (ℤ × ℤ)) → at k (set_default k (pos 0) d) ≡ ok (or_zero (get k d))
unfolding set_default at
at-set_default k d = ground (arith, get-put k k (pos 0) d)

get-put_default :
    (k j x : ℤ) (d : List (ℤ × ℤ))
    → or_zero (get j (put k x (set_default k (pos 0) d)))
      ≡ (if eqb_ℤ k j then x else or_zero (get j d))
get-put_default k j x d =
    ground (arith, get-put k j x (set_default k (pos 0) d), get-set_default k j d)

module _ (e : Entry) (d : List (ℤ × ℤ)) (v m : ℕ) (held : or_zero (get (e.addr >>ℤ 2) d) ≡ pos v)
    (h : v < 2 ^ 32) (word : e.word ≡ pos m) where
  set_low_of :
      ((or_zero (get (e.addr >>ℤ 2) d) &ℤ pos 0xFFFF0000) |ℤ e.word &ℤ pos 0xFFFF)
      ≡ pos (v / 2 ^ 16 * 2 ^ 16 + m % 2 ^ 16)
  set_low_of = rw (held, word) (set_low v m h)

  set_high_of :
      ((or_zero (get (e.addr >>ℤ 2) d) &ℤ pos 0x0000FFFF) |ℤ (e.word &ℤ pos 0xFFFF) <<ℤ 16)
      ≡ pos (v % 2 ^ 16 + m % 2 ^ 16 * 2 ^ 16)
  set_high_of = rw (held, word) (set_high v m)

  pub preload_entry_ok :
      preload_entry e d
      ≡ ok (
          put
            (e.addr >>ℤ 2)
            (pos (updated e v))
            (if fills_word e.kind then d else set_default (e.addr >>ℤ 2) (pos 0) d))
  unfolding preload_entry
  preload_entry_ok = ground (arith, at-set_default (e.addr >>ℤ 2) d, set_low_of, set_high_of, word)

  pub preload_entry-get :
      (j : ℤ)
      → or_zero (
          get j (
            put
              (e.addr >>ℤ 2)
              (pos (updated e v))
              (if fills_word e.kind then d else set_default (e.addr >>ℤ 2) (pos 0) d)))
        ≡ (if eqb_ℤ (e.addr >>ℤ 2) j then pos (updated e v) else or_zero (get j d))
  preload_entry-get j = ground (
    arith,
    get-put_default (e.addr >>ℤ 2) j (pos (updated e v)) d,
    get-put (e.addr >>ℤ 2) j (pos (updated e v)) d,
  )
