-- ===== src/Words/Chain.antt =====
-- A chain `a | b₁ | b₂ | …` of pieces that do not overlap is their sum. Every encoder of
-- tools/riscv_enc.py is such a chain, mostly not in the order of the bits.
use native.Mathlib.Nat.{div-add-mod', div-lt_iff_lt-mul, one-le-pow}
use riscv_vibecoded.Bits.{or_field, bit_and_mask, bit_or_assoc}
use riscv_vibecoded.Encoder.{mask32}
use riscv_vibecoded.Py.Int.{pos, ◌&ℤ◌}
use riscv_vibecoded.Prelude.{
  ℕ, ◌+◌, ◌*◌, ◌/◌, ◌%◌, ◌^◌, ◌<◌, bit_or, List, [], ◌∷◌, ◌≡◌, refl, ap, sym, ◌∙◌, arith,
}

-- A piece that occupies w bits from bit k on.
pub record Piece : Type 0 where
  pub k : ℕ
  pub w : ℕ
  pub bits : ℕ

abbrev pub piece : ℕ → ℕ → ℕ → Piece
piece k w b = record { k = k; w = w; bits = b }

abbrev pub or_chain : ℕ → List Piece → ℕ
or_chain a [] = a
or_chain a (p ∷ ps) = or_chain (bit_or a p.bits) ps

abbrev pub sum_chain : ℕ → List Piece → ℕ
sum_chain a [] = a
sum_chain a (p ∷ ps) = sum_chain (a + p.bits) ps

-- Each piece lies in its own place, and nothing before it does.
abbrev pub Fits : ℕ → List Piece → Type 0
Fits a [] = Unit
Fits a (p ∷ ps) =
    (a / 2 ^ p.k % 2 ^ p.w ≡ 0)
    × (p.bits % 2 ^ p.k ≡ 0)
    × (p.bits < 2 ^ p.w * 2 ^ p.k)
    × Fits (a + p.bits) ps

or_piece :
    (k w a b : ℕ) → a / 2 ^ k % 2 ^ w ≡ 0 → b % 2 ^ k ≡ 0 → b < 2 ^ w * 2 ^ k → bit_or a b ≡ a + b
or_piece k w a b clear aligned below =
    let split : b ≡ b / 2 ^ k * 2 ^ k = omega (arith, div-add-mod' b (2 ^ k)) in
    let small : b / 2 ^ k < 2 ^ w = (div-lt_iff_lt-mul (one-le-pow k 2 (omega arith))).1 below in
    rw split (or_field k w a (b / 2 ^ k) clear small)

pub or_chain-eq-sum_chain : (a : ℕ) (ps : List Piece) → Fits a ps → or_chain a ps ≡ sum_chain a ps
or_chain-eq-sum_chain a [] h = refl
or_chain-eq-sum_chain a (p ∷ ps) h =
    ap (λ (t : ℕ). or_chain t ps) (or_piece p.k p.w a p.bits h.0 h.1 h.2)
    ∙ or_chain-eq-sum_chain (a + p.bits) ps h.3

pub mask32_pos : (n : ℕ) → mask32 (pos n) ≡ pos (n % 2 ^ 32)
unfolding mask32 ◌&ℤ◌
mask32_pos n = ap pos (bit_and_mask 32 n)

pub mask32-or_chain :
    (a : ℕ) (ps : List Piece)
    → Fits a ps
    → sum_chain a ps < 2 ^ 32
    → mask32 (pos (or_chain a ps)) ≡ pos (sum_chain a ps)
mask32-or_chain a ps h l =
    ap (λ (t : ℕ). mask32 (pos t)) (or_chain-eq-sum_chain a ps h)
    ∙ mask32_pos (sum_chain a ps)
    ∙ ap pos (omega arith)

-- A chain that stands in parentheses inside another one.
pub or-or_chain : (a b : ℕ) (ps : List Piece) → bit_or a (or_chain b ps) ≡ or_chain (bit_or a b) ps
or-or_chain a b [] = refl
or-or_chain a b (p ∷ ps) =
    or-or_chain a (bit_or b p.bits) ps
    ∙ ap (λ (t : ℕ). or_chain t ps) (sym (bit_or_assoc a b p.bits))
