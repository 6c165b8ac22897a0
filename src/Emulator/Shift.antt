-- ===== src/Emulator/Shift.antt =====
-- tools/gen_expected.py: arithmetic right shifts (`sra` in `arith`, and `csrai` in `emulate`).
use riscv_vibecoded.Emulator.{Retire, State, csrai}
use riscv_vibecoded.Emulator.Step.{dispatch, blank}
use riscv_vibecoded.Emulator.Alu.{Op, arith_op, sign_filled, shift_left, shift_right}
use riscv_vibecoded.Py.Int.{ℤ, pos, ◌+ℤ◌, ◌-ℤ◌, ◌&ℤ◌, ◌|ℤ◌, ◌<<ℤ◌, ◌>>ℤ◌}
use riscv_vibecoded.Py.Error.{ok}
use riscv_vibecoded.Py.Seq.{item}
use riscv_vibecoded.Bits.{or_field, bit_and_mask}
use riscv_vibecoded.Bits.Window.{pow_add}
use native.Mathlib.Nat.{pow-suc, one-le-pow, div-lt_iff_lt-mul, div-eq_of_lt, mod-eq_of_lt}
use riscv_vibecoded.Prelude.{
  zero, suc, ℕ, ◌+◌, ◌*◌, ◌-◌, ◌/◌, ◌%◌, ◌^◌, ◌<◌, ◌≤◌, ◌≡◌, refl, sym, ap, ◌∙◌, bit_and, bit_or,
  [], ◌∷◌, arith,
}

-- What `sign_filled` gives: the ones that it shifts in are not cut off at 32 bits.
abbrev pub filled : ℕ → ℕ → ℕ
filled a n = a / 2 ^ n + 0xFFFFFFFF * 2 ^ (32 - n)

two_le_pow : (n : ℕ) → 0 < n → 2 ≤ 2 ^ n
two_le_pow zero h = absurd (omega arith)
two_le_pow (suc n) h = omega (arith, pow-suc 2 n, one-le-pow n 2 (omega arith))

module _ (a n : ℕ) (ha : a < 2 ^ 32) (h0 : 0 < n) (hn : n < 32) where
  split : 2 ^ 32 ≡ 2 ^ n * 2 ^ (32 - n)
  split =
      let whole : n + (32 - n) ≡ 32 = omega arith in
      sym (ap (λ (t : ℕ). 2 ^ t) whole) ∙ pow_add n (32 - n)

  quotient : a / 2 ^ n < 2 ^ (32 - n)
  quotient = (div-lt_iff_lt-mul (one-le-pow n 2 (omega arith))).1 (omega (arith, split))

  two_le : 2 ≤ 2 ^ n
  two_le = two_le_pow n h0

  quotient_half : a / 2 ^ n < 2 ^ 31
  quotient_half = (div-lt_iff_lt-mul (one-le-pow n 2 (omega arith))).1 (omega (arith, two_le))

  cut : bit_and (a / 2 ^ n) 0x7FFFFFFF ≡ a / 2 ^ n
  cut = bit_and_mask 31 (a / 2 ^ n) ∙ mod-eq_of_lt quotient_half

  joined : bit_or (a / 2 ^ n) (0xFFFFFFFF * 2 ^ (32 - n)) ≡ filled a n
  joined =
      or_field (32 - n) 32 (a / 2 ^ n) 0xFFFFFFFF
        (ap (λ (t : ℕ). t % 2 ^ 32) (div-eq_of_lt quotient)) (omega arith)

  count : pos 32 -ℤ pos n ≡ pos (32 - n)
  count = unfold ◌-ℤ◌ in ground arith

  sign_filled_lem : sign_filled (pos a) (pos n) ≡ ok (pos (filled a n))
  unfolding sign_filled shift_left shift_right ◌&ℤ◌ ◌|ℤ◌ ◌<<ℤ◌ ◌>>ℤ◌
  sign_filled_lem = rw count (
      ap (λ (t : ℕ). ok (pos (bit_or t (0xFFFFFFFF * 2 ^ (32 - n))))) cut
      ∙ ap (λ (t : ℕ). ok (pos t)) joined)

  -- The 32 low bits are those of the shifted number with the sign bit copied, and the number itself
  -- does not fit in 32 bits.
  filled_lem : (filled a n % 2 ^ 32 ≡ a / 2 ^ n + (2 ^ 32 - 2 ^ (32 - n))) × (2 ^ 32 ≤ filled a n)
  filled_lem =
      let least : 2 ≤ 2 ^ (32 - n) = two_le_pow (32 - n) (omega arith) in
      let most : 2 ^ (32 - n) ≤ 2 ^ 32 = grind (arith, split, two_le) in
      (omega (arith, quotient), omega arith)

-- For a negative 32-bit number and a count of 1 .. 31, `sra` gives a number whose 32 low bits are
-- the arithmetic shift, but which is itself 2 ^ 32 or more.
pub sra_overflow :
    (a n : ℕ)
    → 2 ^ 31 ≤ a
    → a < 2 ^ 32
    → 0 < n
    → n < 32
    → (arith_op Op.sra (pos a) (pos n) ≡ ok (pos (filled a n)))
      × (filled a n % 2 ^ 32 ≡ a / 2 ^ n + (2 ^ 32 - 2 ^ (32 - n)))
      × (2 ^ 32 ≤ filled a n)
unfolding arith_op
sra_overflow a n negative ha h0 hn =
    let value = sign_filled_lem a n ha h0 hn in
    let (low, over) = filled_lem a n ha h0 hn in (ground (arith, value), low, over)

-- A `csrai` of a register that holds a negative 32-bit number, with a count of 1 .. 31, has such a
-- number in its row: the value that it writes is 2 ^ 32 or more.
pub csrai_overflow :
    (w : ℤ) (s : State) (rd a n : ℕ)
    → item s.regs (pos rd) ≡ ok (pos a)
    → 2 ^ 31 ≤ a
    → a < 2 ^ 32
    → 0 < n
    → n < 32
    → (r : Retire) × (dispatch csrai w (pos rd ∷ pos n ∷ []) s ≡ ok r)
      × (v : ℕ) × (r.rdw ≡ pos v)
      × (2 ^ 32 ≤ v)
      × (v % 2 ^ 32 ≡ a / 2 ^ n + (2 ^ 32 - 2 ^ (32 - n)))
unfolding dispatch blank item
csrai_overflow w s rd a n held negative ha h0 hn =
    let value = sign_filled_lem a n ha h0 hn in
    let (low, over) = filled_lem a n ha h0 hn in
    (
      record (blank w s.pc (s.pc +ℤ pos 2)) {
        r1a = pos rd;
        r1d = pos a;
        rda = pos rd;
        rdw = pos (filled a n);
      },
      ground (arith, value, held),
      filled a n,
      refl,
      over,
      low,
    )
