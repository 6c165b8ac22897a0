-- ===== src/Rtl/Lsu/RoundTrip.antt =====
-- rtl/core/lsu.sv over a memory of words with byte enables: what a store leaves in the word, and what
-- a load of the same size reads back.
use riscv_vibecoded.Isa.Fields.{slice, bit, repeat_bit}
use riscv_vibecoded.Rtl.Lsu.{load_lanes, store_lanes}
use riscv_vibecoded.Prelude.{
  ℕ, zero, suc, ◌+◌, ◌*◌, ◌/◌, ◌%◌, ◌^◌, ◌<◌, ◌≤◌, Bool, true, ◌==◌, if◌then◌else◌, ◌≡◌, refl,
  arith,
}

-- Byte i of a word.
abbrev pub byte : ℕ → ℕ → ℕ
byte i w = w / 2 ^ (8 * i) % 2 ^ 8

abbrev pub lane : ℕ → (be new old : ℕ) → ℕ
lane i be new old = if bit i be == 1 then byte i new else byte i old

-- The word after a write of the enabled bytes.
unfoldable pub write_lanes : (be new old : ℕ) → ℕ
write_lanes be new old =
    lane 0 be new old
    + lane 1 be new old * 2 ^ 8
    + lane 2 be new old * 2 ^ 16
    + lane 3 be new old * 2 ^ 24

-- The word after the store.
abbrev pub stored : (addr funct3 v old : ℕ) → ℕ
stored addr funct3 v old =
    write_lanes (store_lanes addr funct3 v).be (store_lanes addr funct3 v).wdata old

-- A value narrowed to the size that funct3 gives, with its sign.
abbrev pub narrowed : ℕ → ℕ → ℕ
narrowed funct3 v =
    if funct3 == 0
    then repeat_bit 24 (bit 7 v) * 2 ^ 8 + v % 2 ^ 8
    else if funct3 == 1
    then repeat_bit 16 (bit 15 v) * 2 ^ 16 + v % 2 ^ 16
    else v

-- The alignment that the core requires, for a byte, a halfword and a word.
abbrev pub is_aligned : ℕ → ℕ → Bool
is_aligned funct3 addr =
    if funct3 == 0 then true else if funct3 == 1 then bit 0 addr == 0 else slice 1 0 addr == 0

-- The four places of an address in its word.
pub by_place : (P : ℕ → Type 0) (k : ℕ) → k < 4 → P 0 → P 1 → P 2 → P 3 → P k
by_place P zero h p0 p1 p2 p3 = p0
by_place P (suc zero) h p0 p1 p2 p3 = p1
by_place P (suc (suc zero)) h p0 p1 p2 p3 = p2
by_place P (suc (suc (suc zero))) h p0 p1 p2 p3 = p3
by_place P (suc (suc (suc (suc k)))) h p0 p1 p2 p3 = absurd (omega arith)

byte_round_trip :
    (addr v old : ℕ) → (load_lanes addr 0 (stored addr 0 v old)).rd_data ≡ narrowed 0 v
unfolding load_lanes store_lanes write_lanes
byte_round_trip addr v old =
    by_place
      (λ k. slice 1 0 addr ≡ k → (load_lanes addr 0 (stored addr 0 v old)).rd_data ≡ narrowed 0 v)
      (slice 1 0 addr) (omega arith) (λ h. rw h (omega arith)) (λ h. rw h (omega arith))
      (λ h. rw h (omega arith)) (λ h. rw h (omega arith)) refl

half_round_trip :
    (addr v old : ℕ)
    → is_aligned 1 addr ≡ true
    → (load_lanes addr 1 (stored addr 1 v old)).rd_data ≡ narrowed 1 v
unfolding load_lanes store_lanes write_lanes
half_round_trip addr v old aligned =
    by_place
      (λ k. slice 1 0 addr ≡ k → (load_lanes addr 1 (stored addr 1 v old)).rd_data ≡ narrowed 1 v)
      (slice 1 0 addr) (omega arith) (λ h. rw (h, low h) (omega arith)) (λ h. absurd (ground arith))
      (λ h. rw (h, high h) (omega arith)) (λ h. absurd (ground arith)) refl
  where
    low : slice 1 0 addr ≡ 0 → bit 1 addr ≡ 0
    low h = omega arith

    high : slice 1 0 addr ≡ 2 → bit 1 addr ≡ 1
    high h = omega arith

word_round_trip :
    (addr v old : ℕ) → v < 2 ^ 32 → (load_lanes addr 2 (stored addr 2 v old)).rd_data ≡ v
unfolding load_lanes store_lanes write_lanes
word_round_trip addr v old h = omega arith

-- For an aligned address and a byte, a halfword or a word: a load of the same size and address, from
-- the word that a store of v leaves, reads back v, narrowed to that size and extended with its sign.
pub load_lanes-store_lanes :
    (addr funct3 v old : ℕ)
    → funct3 ≤ 2
    → is_aligned funct3 addr ≡ true
    → v < 2 ^ 32
    → (load_lanes addr funct3 (stored addr funct3 v old)).rd_data ≡ narrowed funct3 v
load_lanes-store_lanes addr zero v old f a h = byte_round_trip addr v old
load_lanes-store_lanes addr (suc zero) v old f a h = half_round_trip addr v old a
load_lanes-store_lanes addr (suc (suc zero)) v old f a h = word_round_trip addr v old h
load_lanes-store_lanes addr (suc (suc (suc n))) v old f a h = absurd (omega arith)

-- The lanes that are not enabled.
untouched : (be new old i : ℕ) → i < 4 → bit i be ≡ 0 → byte i (write_lanes be new old) ≡ byte i old
unfolding write_lanes
untouched be new old i h off =
    by_place (λ k. bit k be ≡ 0 → byte k (write_lanes be new old) ≡ byte k old) i h
      (λ o. ground arith) (λ o. ground arith) (λ o. ground arith) (λ o. ground arith) off
