-- ===== src/Emulator/Preload/Layout.antt =====
-- tools/gen_expected.py, `emit_sv`: the preload words are the program's code in memory.
use riscv_vibecoded.Emulator.{Entry}
use riscv_vibecoded.Py.Int.{ℤ, pos, pos_part, ◌>>ℤ◌, ◌%ℤ◌, eqb_ℤ}
use riscv_vibecoded.Py.Int.Mask.{and_mask}
use riscv_vibecoded.Py.Error.{ok}
use riscv_vibecoded.Py.Equality.{int_eq, eqb_ℤ_iff}
use riscv_vibecoded.Py.Dict.{get, put}
use riscv_vibecoded.Prelude.{
  All, ℕ, ◌/◌, ◌%◌, ◌-◌, ◌^◌, ◌<◌, ◌==◌, ltb, ◌&&◌, if◌then◌else◌, List, [], ◌∷◌, ◌≡◌, refl, ap,
  ◌∙◌, arith,
}
use riscv_vibecoded.Emulator.Preload.{set_default, fills_word, preload_entry, preload}
use riscv_vibecoded.Emulator.Preload.Words.{
  or_zero, word_at, Words, updated, preload_entry_ok, preload_entry-get,
}

-- The halfword at an address.
abbrev pub half : ℕ → ℕ → ℕ
half a w = if a % 4 == 0 then w % 2 ^ 16 else w / 2 ^ 16 % 2 ^ 16

-- What an instruction of a program puts at an address: its low half at its own, its high half, if it
-- has one, two bytes on.
abbrev pub laid_by : Entry → ℕ → ℕ → ℕ
laid_by e a h =
    if eqb_ℤ e.addr (pos a)
    then pos_part e.word % 2 ^ 16
    else if fills_word e.kind && eqb_ℤ e.addr (pos (a - 2)) && ltb 1 a
    then pos_part e.word / 2 ^ 16 % 2 ^ 16
    else h

abbrev pub laid : List Entry → ℕ → ℕ → ℕ
laid [] a h = h
laid (e ∷ prog) a h = laid prog a (laid_by e a h)

-- An address that fits the instruction, and a 32-bit word.
pub record Placed (e : Entry) : Type 0 where
  pub place : ℕ
  pub code : ℕ
  pub at_place : e.addr ≡ pos place
  pub is_code : e.word ≡ pos code
  pub fits : code < 2 ^ 32
  pub fitting : place % (if fills_word e.kind then 4 else 2) ≡ 0

half-updated :
    (e : Entry) (p : Placed e) (a w : ℕ)
    → a % 2 ≡ 0
    → w < 2 ^ 32
    → half a (if eqb_ℤ (e.addr >>ℤ 2) (pos (a / 4)) then updated e w else w)
      ≡ laid_by e a (half a w)
unfolding ◌>>ℤ◌ ◌%ℤ◌
half-updated e p a w even h =
    rw (p.at_place, p.is_code) (ground (arith, p.fits, p.fitting, and_mask 2 (pos p.place)))

updated-lt : (e : Entry) (p : Placed e) (w : ℕ) → w < 2 ^ 32 → updated e w < 2 ^ 32
updated-lt e p w h = rw (p.at_place, p.is_code) (ground (arith, p.fits))

-- After a round of the loop every word is still one of 32 bits, and the halfword at an even address
-- is what the entry puts there, or what was there.
module _ (e : Entry) (p : Placed e) (d : List (ℤ × ℤ)) (words : Words d) where
  abbrev after : List (ℤ × ℤ)
  after =
      put (e.addr >>ℤ 2) (pos (updated e (word_at d (e.addr >>ℤ 2))))
        (if fills_word e.kind then d else set_default (e.addr >>ℤ 2) (pos 0) d)

  entry_ok : preload_entry e d ≡ ok after
  entry_ok =
      let (held, below) = words (e.addr >>ℤ 2) in
      preload_entry_ok e d (word_at d (e.addr >>ℤ 2)) p.code held below p.is_code

  entry-get :
      (j : ℤ)
      → or_zero (get j after) ≡ (
          if eqb_ℤ (e.addr >>ℤ 2) j
          then pos (updated e (word_at d (e.addr >>ℤ 2)))
          else or_zero (get j d))
  entry-get j =
      let (held, below) = words (e.addr >>ℤ 2) in
      preload_entry-get e d (word_at d (e.addr >>ℤ 2)) p.code held below p.is_code j

  entry-Words : Words after
  entry-Words j =
      let bound = updated-lt e p (word_at d (e.addr >>ℤ 2)) (words (e.addr >>ℤ 2)).1 in
      let (held, below) = words j in
      (ground (arith, entry-get j), ground (arith, entry-get j, bound, below))

  entry-half :
      (a : ℕ)
      → a % 2 ≡ 0
      → half a (word_at after (pos (a / 4))) ≡ laid_by e a (half a (word_at d (pos (a / 4))))
  entry-half a even =
      let (held, below) = words (pos (a / 4)) in
      ap (half a) (same (pos (a / 4))) ∙ half-updated e p a (word_at d (pos (a / 4))) even below
    where
      same :
          (j : ℤ)
          → word_at after j
            ≡ (if eqb_ℤ (e.addr >>ℤ 2) j then updated e (word_at d j) else word_at d j)
      same j = ground (
        arith,
        entry-get j,
        eqb_ℤ_iff (e.addr >>ℤ 2) j,
        λ (q : e.addr >>ℤ 2 ≡ j). ap (λ (t : ℤ). updated e (word_at d t)) q,
      )

preload-laid :
    (prog : List Entry) (d : List (ℤ × ℤ)) (a : ℕ)
    → All Placed prog
    → Words d
    → a % 2 ≡ 0
    → (d' : List (ℤ × ℤ)) × (preload prog d ≡ ok d')
      × (half a (word_at d' (pos (a / 4))) ≡ laid prog a (half a (word_at d (pos (a / 4)))))
unfolding preload
preload-laid [] d a all words even = (d, refl, refl)
preload-laid (e ∷ prog) d a all words even =
    let first = entry_ok e all.0 d words in
    let (d', others, value) =
      preload-laid prog (after e all.0 d words) a all.1 (entry-Words e all.0 d words) even in
    (d', rw first others, value ∙ ap (laid prog a) (entry-half e all.0 d words a even))

-- For a program whose entries have 32-bit words at even addresses, at multiples of 4 those of the
-- kinds lui and addi, the loop of `emit_sv` raises no exception, and at each even address the words
-- that it gives hold the halfword of the last instruction that covers the address, in little-endian
-- order, or 0.
pub preload_layout :
    (prog : List Entry) (a : ℕ)
    → All Placed prog
    → a % 2 ≡ 0
    → (d : List (ℤ × ℤ)) × (preload prog [] ≡ ok d)
      × (half a (word_at d (pos (a / 4))) ≡ laid prog a 0)
unfolding get
preload_layout prog a all even =
    let nothing : Words [] = λ k. (refl, omega arith) in
    let blank : half a 0 ≡ 0 = ground arith in
    let (d, success, value) = preload-laid prog [] a all nothing even in
    (d, success, value ∙ ap (laid prog a) blank)
