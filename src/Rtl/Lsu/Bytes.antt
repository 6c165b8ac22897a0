-- ===== src/Rtl/Lsu/Bytes.antt =====
-- rtl/core/lsu.sv over a memory of words with byte enables: which bytes a store changes.
use riscv_vibecoded.Isa.Fields.{slice, bit}
use riscv_vibecoded.Rtl.Lsu.{store_lanes, addr_o}
use riscv_vibecoded.Rtl.Lsu.RoundTrip.{byte, lane, write_lanes, is_aligned, by_place}
use riscv_vibecoded.Prelude.{
  ℕ, zero, suc, ◌+◌, ◌-◌, ◌*◌, ◌/◌, ◌%◌, ◌^◌, ◌<◌, ◌≤◌, Bool, true, ltb, leb, ◌==◌, ◌&&◌,
  if◌then◌else◌, ◌≡◌, refl, arith, ◌∙◌, inl, inr, Bool-cases,
}

-- Byte b of a memory of words.
abbrev pub byte_at : (ℕ → ℕ) → ℕ → ℕ
byte_at memory b = byte (b % 4) (memory (b / 4 * 4))

-- Byte j of the word at the place i in which a store is.
AtLane : (funct3 i j v old : ℕ) → Type 0
AtLane funct3 i j v old =
    lane j (store_lanes i funct3 v).be (store_lanes i funct3 v).wdata old
    ≡ (if leb i j && ltb j (i + 2 ^ funct3) then byte (j - i) v else byte j old)

byte_lane : (i j v old : ℕ) → i < 4 → j < 4 → AtLane 0 i j v old
unfolding store_lanes AtLane
byte_lane i j v old hi hj =
    by_place (λ i. AtLane 0 i j v old) i hi
      (by_place (λ j. AtLane 0 0 j v old) j hj (ground arith) (ground arith) (ground arith)
        (ground arith))
      (by_place (λ j. AtLane 0 1 j v old) j hj (ground arith) (ground arith) (ground arith)
        (ground arith))
      (by_place (λ j. AtLane 0 2 j v old) j hj (ground arith) (ground arith) (ground arith)
        (ground arith))
      (by_place (λ j. AtLane 0 3 j v old) j hj (ground arith) (ground arith) (ground arith)
        (ground arith))

half_lane : (i j v old : ℕ) → i < 4 → j < 4 → bit 0 i ≡ 0 → AtLane 1 i j v old
unfolding store_lanes AtLane
half_lane i j v old hi hj =
    by_place (λ i. bit 0 i ≡ 0 → AtLane 1 i j v old) i hi
      (λ e.
        by_place (λ j. AtLane 1 0 j v old) j hj (ground arith) (ground arith) (ground arith)
          (ground arith))
      (λ e. absurd (ground arith))
      (λ e.
        by_place (λ j. AtLane 1 2 j v old) j hj (ground arith) (ground arith) (ground arith)
          (ground arith))
      (λ e. absurd (ground arith))

word_lane : (i j v old : ℕ) → i ≡ 0 → j < 4 → v < 2 ^ 32 → AtLane 2 i j v old
unfolding store_lanes AtLane
word_lane i j v old e hj hv = rw e (
    by_place (λ j. AtLane 2 0 j v old) j hj (ground arith) (ground arith) (ground arith)
      (ground arith))

write_lanes_at : (j be new old : ℕ) → j < 4 → byte j (write_lanes be new old) ≡ lane j be new old
unfolding write_lanes
write_lanes_at j be new old h =
    by_place (λ j. byte j (write_lanes be new old) ≡ lane j be new old) j h (ground arith)
      (ground arith) (ground arith) (ground arith)

-- The lanes depend on the place of the address in its word.
lanes_place : (a funct3 v : ℕ) → store_lanes a funct3 v ≡ store_lanes (a % 4) funct3 v
unfolding store_lanes
lanes_place a funct3 v =
    let low : slice 1 0 (a % 4) ≡ slice 1 0 a = omega arith in
    let high : bit 1 (a % 4) ≡ bit 1 a = omega arith in rw (low, high) refl

lanes_at :
    (funct3 a j v old : ℕ)
    → funct3 ≤ 2
    → is_aligned funct3 a ≡ true
    → j < 4
    → v < 2 ^ 32
    → AtLane funct3 (a % 4) j v old
lanes_at zero a j v old f aligned hj hv = byte_lane (a % 4) j v old (omega arith) hj
lanes_at (suc zero) a j v old f aligned hj hv =
    let even : bit 0 (a % 4) ≡ 0 = ground arith in half_lane (a % 4) j v old (omega arith) hj even
lanes_at (suc (suc zero)) a j v old f aligned hj hv =
    let first : a % 4 ≡ 0 = ground arith in word_lane (a % 4) j v old first hj hv
lanes_at (suc (suc (suc k))) a j v old f aligned hj hv = absurd (omega arith)

-- The bytes of an aligned access.
abbrev pub in_access : (a funct3 b : ℕ) → Bool
in_access a funct3 b = leb a b && ltb b (a + 2 ^ funct3)

within_word :
    (funct3 a b : ℕ)
    → funct3 ≤ 2
    → is_aligned funct3 a ≡ true
    → in_access a funct3 b ≡ (b / 4 == a / 4 && in_access (a % 4) funct3 (b % 4))
within_word zero a b f aligned = ground arith
within_word (suc zero) a b f aligned = ground arith
within_word (suc (suc zero)) a b f aligned = ground arith
within_word (suc (suc (suc k))) a b f aligned = absurd (omega arith)

-- A memory of words that writes the enabled bytes of the word at an address.
abbrev pub write_enabled : (addr be new : ℕ) → (ℕ → ℕ) → ℕ → ℕ
write_enabled addr be new memory w = if w == addr then write_lanes be new (memory w) else memory w

pub byte_at-store :
    (memory : ℕ → ℕ) (funct3 a v b : ℕ)
    → funct3 ≤ 2
    → is_aligned funct3 a ≡ true
    → a < 2 ^ 32
    → v < 2 ^ 32
    → byte_at
        (write_enabled (addr_o a) (store_lanes a funct3 v).be (store_lanes a funct3 v).wdata memory)
        b
      ≡ (if in_access a funct3 b then byte (b - a) v else byte_at memory b)
unfolding addr_o AtLane
byte_at-store memory funct3 a v b f aligned ha hv =
    let here : (b / 4 * 4 == slice 31 2 a * 2 ^ 2) ≡ (b / 4 == a / 4) = ground arith in
    let inside = within_word funct3 a b f aligned in
    elim (Bool-cases (b / 4 == a / 4)) [
      | inl same ↦
          let lanes = lanes_at funct3 a (b % 4) v (memory (b / 4 * 4)) f aligned (omega arith) hv in
          let offset : b - a ≡ b % 4 - a % 4 = ground arith in
          rw (inside, here, same, offset, lanes_place a funct3 v)
            (write_lanes_at (b % 4) _ _ (memory (b / 4 * 4)) (omega arith) ∙ lanes)
      | inr other ↦ rw (inside, here, other) refl
    ]
