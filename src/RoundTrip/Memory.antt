-- ===== src/RoundTrip/Memory.antt =====
-- The RV32C loads, stores and stack pointer adjustments of tools/riscv_enc.py.
use riscv_vibecoded.Isa.Insn.{op_imm, load_from, store_to, bytes, Encodes}
use riscv_vibecoded.Words.Memory.{cl_word_of, lwsp_word_of, c_lw_word, c_sw_word, c_lwsp_word}
use riscv_vibecoded.Words.Stack.{swsp_word_of, c_swsp_word}
use riscv_vibecoded.Words.StackPointer.{
  addi16sp_word_of, addi4spn_word_of, c_addi16sp_word, c_addi4spn_word,
}
use riscv_vibecoded.Decoded.Memory.{
  cl_fields, decode-c_lw, decode-c_sw, decode-c_lwsp, decode-c_swsp, decode-c_addi16sp,
  decode-c_addi4spn,
}
use riscv_vibecoded.Encoder.Compressed.{c_lw, c_sw, c_lwsp, c_swsp, c_addi16sp, c_addi4spn}
use riscv_vibecoded.Py.Error.{ok}
use riscv_vibecoded.Py.Int.{ℤ, pos, negsuc, ◌≤ℤ◌, ◌%ℤ◌}
use riscv_vibecoded.Py.Int.Mask.{low32, low32-lt, low32_signed, low32_mod}
use riscv_vibecoded.RoundTrip.Outcome.{Succeeds}
use riscv_vibecoded.Prelude.{
  ℕ, ◌+◌, ◌-◌, ◌%◌, ◌^◌, ◌≤◌, ◌<◌, ◌≡◌, ◌≢◌, some, refl, ap, ap₂, ◌∙◌, arith,
}

low32_pos : (n : ℕ) → n < 2 ^ 32 → low32 (pos n) ≡ n
unfolding ◌%ℤ◌
low32_pos n h = omega arith

-- `c_lw` and `c_sw` with registers of x8 .. x15 and an offset of 0 .. 124, a multiple of 4,
-- abbreviate lw and sw with these registers and that offset.
pub c_lw_sw-Encodes :
    (r1 r2 offset : ℕ)
    → 8 ≤ r1
    → r1 ≤ 15
    → 8 ≤ r2
    → r2 ≤ 15
    → offset < 128
    → offset % 4 ≡ 0
    → Succeeds (c_lw (pos r1) (pos r2) (pos offset)) 2 (load_from 2 r1 r2 offset)
      × Succeeds (c_sw (pos r1) (pos r2) (pos offset)) 2 (store_to 2 r1 r2 offset)
unfolding bytes
c_lw_sw-Encodes r1 r2 offset lo1 hi1 lo2 hi2 below aligned =
    let h1 : r1 - 8 < 8 = omega arith in
    let h2 : r2 - 8 < 8 = omega arith in
    let e1 : 8 + (r1 - 8) ≡ r1 = omega arith in
    let e2 : 8 + (r2 - 8) ≡ r2 = omega arith in
    let same : low32 (pos offset) ≡ offset = low32_pos offset (omega arith) in
    let lw = cl_fields 2 (r1 - 8) (r2 - 8) offset (omega arith) h1 h2 in
    let sw = cl_fields 6 (r1 - 8) (r2 - 8) offset (omega arith) h1 h2 in
    (
      (
        pos (cl_word_of 2 (r1 - 8) offset (r2 - 8)),
        c_lw_word r1 r2 (pos offset) lo1 hi1 lo2 hi2
            ∙ ap (λ (t : ℕ). ok (pos (cl_word_of 2 (r1 - 8) t (r2 - 8)))) same,
        record {
          word = cl_word_of 2 (r1 - 8) offset (r2 - 8);
          is_word = refl;
          fits = lw.4;
          sized = rw lw.0;
          decoded =
              decode-c_lw (r1 - 8) (r2 - 8) offset h1 h2 below aligned
              ∙ ap₂ (λ (s t : ℕ). some (load_from 2 s t offset)) e1 e2;
        },
      ),
      (
        pos (cl_word_of 6 (r1 - 8) offset (r2 - 8)),
        c_sw_word r1 r2 (pos offset) lo1 hi1 lo2 hi2
            ∙ ap (λ (t : ℕ). ok (pos (cl_word_of 6 (r1 - 8) t (r2 - 8)))) same,
        record {
          word = cl_word_of 6 (r1 - 8) offset (r2 - 8);
          is_word = refl;
          fits = sw.4;
          sized = rw sw.0;
          decoded =
              decode-c_sw (r1 - 8) (r2 - 8) offset h1 h2 below aligned
              ∙ ap₂ (λ (s t : ℕ). some (store_to 2 s t offset)) e1 e2;
        },
      ),
    )

module _ (r offset : ℕ) (hr : r < 32) (below : offset < 256) (aligned : offset % 4 ≡ 0) where
  same : low32 (pos offset) ≡ offset
  same = low32_pos offset (omega arith)

  pub c_lwsp-Encodes : 0 < r → Encodes (c_lwsp (pos r) (pos offset)) 2 (load_from 2 2 r offset)
  unfolding bytes
  c_lwsp-Encodes nonzero = record {
    word = lwsp_word_of r offset;
    is_word = c_lwsp_word r (pos offset) hr ∙ ap (λ (t : ℕ). pos (lwsp_word_of r t)) same;
    fits = omega arith;
    sized = ground arith;
    decoded = decode-c_lwsp r offset hr below aligned nonzero;
  }

  pub c_swsp-Encodes : Encodes (c_swsp (pos r) (pos offset)) 2 (store_to 2 2 r offset)
  unfolding bytes
  c_swsp-Encodes = record {
    word = swsp_word_of r offset;
    is_word = c_swsp_word r (pos offset) hr ∙ ap (λ (t : ℕ). pos (swsp_word_of r t)) same;
    fits = omega arith;
    sized = ground arith;
    decoded = decode-c_swsp r offset hr below aligned;
  }

  -- For a register of x1 .. x31 and an offset of 0 .. 252, a multiple of 4, `c_lwsp` and `c_swsp` are
  -- 2-byte words that decode to lw and sw relative to x2 with that offset.
  pub stack_accesses-Encodes :
      0 < r
      → Encodes (c_lwsp (pos r) (pos offset)) 2 (load_from 2 2 r offset)
        × Encodes (c_swsp (pos r) (pos offset)) 2 (store_to 2 2 r offset)
  stack_accesses-Encodes nonzero = (c_lwsp-Encodes nonzero, c_swsp-Encodes)

-- `c_addi16sp` with a nonzero immediate of -512 .. 511, a multiple of 16, abbreviates
-- addi x2, x2, imm.
pub c_addi16sp-Encodes :
    (imm : ℤ)
    → imm %ℤ 16 ≡ 0
    → low32 imm ≢ 0
    → negsuc 511 ≤ℤ imm
    → imm ≤ℤ pos 511
    → Encodes (c_addi16sp imm) 2 (op_imm 0 2 2 (low32 imm))
unfolding bytes
c_addi16sp-Encodes imm aligned nonzero lo hi =
    let u : ℕ = low32 imm in
    record {
      word = addi16sp_word_of u;
      is_word = c_addi16sp_word imm;
      fits = omega arith;
      sized = ground arith;
      decoded =
          decode-c_addi16sp u (low32-lt imm) (omega arith) (low32_mod 4 imm (omega arith) ∙ aligned)
            (low32_signed 512 imm (omega arith) (omega arith) lo hi);
    }

-- `c_addi4spn` with a register of x8 .. x15 and an immediate of 4 .. 1020, a multiple of 4,
-- abbreviates addi rd, x2, imm.
pub c_addi4spn-Encodes :
    (rd offset : ℕ)
    → 8 ≤ rd
    → rd ≤ 15
    → 0 < offset
    → offset < 1024
    → offset % 4 ≡ 0
    → Succeeds (c_addi4spn (pos rd) (pos offset)) 2 (op_imm 0 2 rd offset)
unfolding bytes
c_addi4spn-Encodes rd offset lo hi nonzero below aligned =
    let short : rd - 8 < 8 = omega arith in
    let whole : 8 + (rd - 8) ≡ rd = omega arith in
    (
      pos (addi4spn_word_of (rd - 8) offset),
      c_addi4spn_word rd (pos offset) lo hi
          ∙ ap (λ (t : ℕ). ok (pos (addi4spn_word_of (rd - 8) t))) (low32_pos offset (omega arith)),
      record {
        word = addi4spn_word_of (rd - 8) offset;
        is_word = refl;
        fits = omega arith;
        sized = ground arith;
        decoded =
            decode-c_addi4spn offset (omega arith) nonzero (rd - 8) short aligned below
            ∙ ap (λ (t : ℕ). some (op_imm 0 2 t offset)) whole;
      },
    )
