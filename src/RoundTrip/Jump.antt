-- ===== src/RoundTrip/Jump.antt =====
-- The helpers of tools/riscv_enc.py that scatter their immediate over the word.
use riscv_vibecoded.Isa.Fields.{imm_j, imm_b, imm_s}
use riscv_vibecoded.Isa.Insn.{jump_link, branch_if, store_to, decode32, decode, bytes, Encodes}
use riscv_vibecoded.Words.Jump.{j_word, b_word, s_word, jal_word, branch_word, store_word}
use riscv_vibecoded.Encoder.Base.{jal, branch, store}
use riscv_vibecoded.Py.Int.{ℤ, pos, negsuc, ◌≤ℤ◌, ◌%ℤ◌}
use riscv_vibecoded.Py.Int.Mask.{low32, low32-lt, low32_signed, low32_mod}
use riscv_vibecoded.Prelude.{
  ℕ, ◌+◌, ◌-◌, ◌*◌, ◌/◌, ◌%◌, ◌^◌, ◌≤◌, ◌<◌, ◌≡◌, ◌⊎◌, ap, ◌∙◌, some, arith,
}

-- The decoder's immediate, from the pieces that the word holds.
imm_j-j_word :
    (a b c d rd : ℕ)
    → a < 2
    → b < 2 ^ 10
    → c < 2
    → d < 2 ^ 8
    → rd < 32
    → imm_j (j_word a b c d rd) ≡ a * (2 ^ 32 - 2 ^ 20) + d * 2 ^ 12 + c * 2 ^ 11 + b * 2
unfolding imm_j
imm_j-j_word a b c d rd ha hb hc hd hr = omega arith

imm_b-b_word :
    (a b c d rs2 rs1 f3 : ℕ)
    → a < 2
    → b < 2
    → c < 2 ^ 6
    → d < 2 ^ 4
    → rs2 < 32
    → rs1 < 32
    → f3 < 8
    → imm_b (b_word a b c d rs2 rs1 f3) ≡ a * (2 ^ 32 - 2 ^ 12) + b * 2 ^ 11 + c * 2 ^ 5 + d * 2
unfolding imm_b
imm_b-b_word a b c d rs2 rs1 f3 ha hb hc hd h2 h1 h3 = omega arith

imm_s-s_word :
    (a b rs2 rs1 f3 : ℕ)
    → a < 2 ^ 7
    → b < 2 ^ 5
    → rs2 < 32
    → rs1 < 32
    → f3 < 8
    → imm_s (s_word a b rs2 rs1 f3) ≡ a / 2 ^ 6 * (2 ^ 32 - 2 ^ 12) + a * 2 ^ 5 + b
unfolding imm_s
imm_s-s_word a b rs2 rs1 f3 ha hb h2 h1 h3 = omega arith

decode-j_word :
    (a b c d rd : ℕ)
    → a < 2
    → b < 2 ^ 10
    → c < 2
    → d < 2 ^ 8
    → rd < 32
    → decode (j_word a b c d rd)
      ≡ some (jump_link rd (a * (2 ^ 32 - 2 ^ 20) + d * 2 ^ 12 + c * 2 ^ 11 + b * 2))
unfolding decode decode32
decode-j_word a b c d rd ha hb hc hd hr = ground (arith, imm_j-j_word a b c d rd)

decode-b_word :
    (a b c d rs2 rs1 f3 : ℕ)
    → a < 2
    → b < 2
    → c < 2 ^ 6
    → d < 2 ^ 4
    → rs2 < 32
    → rs1 < 32
    → f3 < 8
    → decode (b_word a b c d rs2 rs1 f3)
      ≡ some (branch_if f3 rs1 rs2 (a * (2 ^ 32 - 2 ^ 12) + b * 2 ^ 11 + c * 2 ^ 5 + d * 2))
unfolding decode decode32
decode-b_word a b c d rs2 rs1 f3 ha hb hc hd h2 h1 h3 =
    ground (arith, imm_b-b_word a b c d rs2 rs1 f3)

decode-s_word :
    (a b rs2 rs1 f3 : ℕ)
    → a < 2 ^ 7
    → b < 2 ^ 5
    → rs2 < 32
    → rs1 < 32
    → f3 < 8
    → decode (s_word a b rs2 rs1 f3)
      ≡ some (store_to f3 rs1 rs2 (a / 2 ^ 6 * (2 ^ 32 - 2 ^ 12) + a * 2 ^ 5 + b))
unfolding decode decode32
decode-s_word a b rs2 rs1 f3 ha hb h2 h1 h3 = ground (arith, imm_s-s_word a b rs2 rs1 f3)

-- `jal` with its register in range and an even offset of -2 ^ 20 .. 2 ^ 20 - 1 is the jump with
-- that register and the offset sign-extended to 32 bits.
pub jal-Encodes :
    (imm : ℤ) (rd : ℕ)
    → rd < 32
    → imm %ℤ 2 ≡ 0
    → negsuc 1048575 ≤ℤ imm
    → imm ≤ℤ pos 1048575
    → Encodes (jal imm (pos rd)) 4 (jump_link rd (low32 imm))
unfolding bytes
jal-Encodes imm rd hd even lo hi =
    let u : ℕ = low32 imm in
    let signed : (u < 2 ^ 20) ⊎ (2 ^ 32 ≤ u + 2 ^ 20) =
      low32_signed (2 ^ 20) imm (omega arith) (omega arith) lo hi in
    let whole : u / 2 ^ 20 % 2 * (2 ^ 32 - 2 ^ 20)
          + u / 2 ^ 12 % 2 ^ 8 * 2 ^ 12
          + u / 2 ^ 11 % 2 * 2 ^ 11
          + u / 2 % 2 ^ 10 * 2
        ≡ u =
      omega (arith, low32-lt imm, low32_mod 1 imm (omega arith)) in
    record {
      word = j_word (u / 2 ^ 20 % 2) (u / 2 % 2 ^ 10) (u / 2 ^ 11 % 2) (u / 2 ^ 12 % 2 ^ 8) rd;
      is_word = jal_word imm rd hd;
      fits = omega arith;
      sized = ground arith;
      decoded =
          decode-j_word (u / 2 ^ 20 % 2) (u / 2 % 2 ^ 10) (u / 2 ^ 11 % 2) (u / 2 ^ 12 % 2 ^ 8) rd
            (omega arith) (omega arith) (omega arith) (omega arith) hd
          ∙ ap (λ (t : ℕ). some (jump_link rd t)) whole;
    }

module _ (f3 rs1 rs2 : ℕ) (imm : ℤ) (h3 : f3 < 8) (h1 : rs1 < 32) (h2 : rs2 < 32) where
  -- `branch` with its fields in range and an even offset of -4096 .. 4095 is the branch with these
  -- fields and the offset sign-extended to 32 bits.
  pub branch-Encodes :
      imm %ℤ 2 ≡ 0
      → negsuc 4095 ≤ℤ imm
      → imm ≤ℤ pos 4095
      → Encodes (branch (pos f3) (pos rs1) (pos rs2) imm) 4 (branch_if f3 rs1 rs2 (low32 imm))
  unfolding bytes
  branch-Encodes even lo hi =
      let u : ℕ = low32 imm in
      let signed : (u < 4096) ⊎ (2 ^ 32 ≤ u + 4096) =
        low32_signed 4096 imm (omega arith) (omega arith) lo hi in
      let whole : u / 2 ^ 12 % 2 * (2 ^ 32 - 2 ^ 12)
            + u / 2 ^ 11 % 2 * 2 ^ 11
            + u / 2 ^ 5 % 2 ^ 6 * 2 ^ 5
            + u / 2 % 2 ^ 4 * 2
          ≡ u =
        omega (arith, low32-lt imm, low32_mod 1 imm (omega arith)) in
      record {
        word =
            b_word (u / 2 ^ 12 % 2) (u / 2 ^ 11 % 2) (u / 2 ^ 5 % 2 ^ 6) (u / 2 % 2 ^ 4) rs2 rs1 f3;
        is_word = branch_word imm f3 rs1 rs2 h3 h1 h2;
        fits = omega arith;
        sized = ground arith;
        decoded =
            decode-b_word (u / 2 ^ 12 % 2) (u / 2 ^ 11 % 2) (u / 2 ^ 5 % 2 ^ 6) (u / 2 % 2 ^ 4) rs2
              rs1 f3 (omega arith) (omega arith) (omega arith) (omega arith) h2 h1 h3
            ∙ ap (λ (t : ℕ). some (branch_if f3 rs1 rs2 t)) whole;
      }

  -- `store` with its fields in range and an immediate of -2048 .. 2047 is the store with these
  -- fields and the immediate sign-extended to 32 bits.
  pub store-Encodes :
      negsuc 2047 ≤ℤ imm
      → imm ≤ℤ pos 2047
      → Encodes (store (pos f3) (pos rs1) (pos rs2) imm) 4 (store_to f3 rs1 rs2 (low32 imm))
  unfolding bytes
  store-Encodes lo hi =
      let u : ℕ = low32 imm in
      let signed : (u < 2048) ⊎ (2 ^ 32 ≤ u + 2048) =
        low32_signed 2048 imm (omega arith) (omega arith) lo hi in
      let whole : u / 2 ^ 5 % 2 ^ 7 / 2 ^ 6 * (2 ^ 32 - 2 ^ 12)
            + u / 2 ^ 5 % 2 ^ 7 * 2 ^ 5
            + u % 2 ^ 5
          ≡ u =
        omega (arith, low32-lt imm) in
      record {
        word = s_word (u / 2 ^ 5 % 2 ^ 7) (u % 2 ^ 5) rs2 rs1 f3;
        is_word = store_word imm f3 rs1 rs2 h3 h1 h2;
        fits = omega arith;
        sized = ground arith;
        decoded =
            decode-s_word (u / 2 ^ 5 % 2 ^ 7) (u % 2 ^ 5) rs2 rs1 f3 (omega arith) (omega arith) h2
              h1 h3
            ∙ ap (λ (t : ℕ). some (store_to f3 rs1 rs2 t)) whole;
      }
