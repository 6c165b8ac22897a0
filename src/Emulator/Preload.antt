-- ===== src/Emulator/Preload.antt =====
-- tools/gen_expected.py, `emit_sv`: the words that a test bench loads into memory before the run.
pub mod Words
pub mod Layout
use riscv_vibecoded.Emulator.{Kind, lui, addi, Entry}
use riscv_vibecoded.Bits.{or_low, or_field, bit_and_mask, bit_and_shifted}
use riscv_vibecoded.Py.Int.{ℤ, pos, pos_part, ◌&ℤ◌, ◌|ℤ◌, ◌<<ℤ◌, ◌>>ℤ◌, ◌%ℤ◌, eqb_ℤ}
use riscv_vibecoded.Py.Int.Mask.{and_mask}
use riscv_vibecoded.Py.Error.{Result, ok, ◌>>=◌}
use riscv_vibecoded.Py.Equality.{int_eq, eqb_ℤ_iff}
use riscv_vibecoded.Py.Dict.{get, put, at, get-put, or_key_error}
use native.Mathlib.Nat.{pow-suc}
use riscv_vibecoded.Prelude.{
  All, ℕ, zero, suc, ◌+◌, ◌*◌, ◌/◌, ◌%◌, ◌-◌, ◌^◌, ◌<◌, ◌==◌, ltb, Bool, true, false, ◌&&◌,
  if◌then◌else◌, Option, none, some, List, [], ◌∷◌, ◌≡◌, ◌⊎◌, refl, sym, ap, ◌∙◌, bit_and, bit_or,
  Option-cases, inl, inr, arith,
}

abbrev pub if_absent : Option ℤ → List (ℤ × ℤ) → List (ℤ × ℤ) → List (ℤ × ℤ)
if_absent none x y = x
if_absent (some v) x y = y

-- d.setdefault(k, v)
unfoldable pub set_default : ℤ → ℤ → List (ℤ × ℤ) → List (ℤ × ℤ)
set_default k v d = if_absent (get k d) (put k v d) d

-- k in ("lui", "addi")
unfoldable pub fills_word : Kind → Bool
fills_word lui = true
fills_word addi = true
fills_word _ = false

-- One round of the loop over the program.
unfoldable pub preload_entry : Entry → List (ℤ × ℤ) → Result (List (ℤ × ℤ))
unfolding set_default fills_word
preload_entry e d =
    let idx = e.addr >>ℤ 2 in
    if fills_word e.kind
    then ok (put idx e.word d)
    else if eqb_ℤ (e.addr &ℤ pos 3) (pos 0)
    then (do
      let d' = set_default idx (pos 0) d
      v ← at idx d'
      ok (put idx (v &ℤ pos 0xFFFF0000 |ℤ e.word &ℤ pos 0xFFFF) d'))
    else (do
      let d' = set_default idx (pos 0) d
      v ← at idx d'
      ok (put idx (v &ℤ pos 0x0000FFFF |ℤ (e.word &ℤ pos 0xFFFF) <<ℤ 16) d'))

-- The loop, from a dictionary.
unfoldable pub preload : List Entry → List (ℤ × ℤ) → Result (List (ℤ × ℤ))
preload [] d = ok d
preload (e ∷ prog) d = do d' ← preload_entry e d; preload prog d'
