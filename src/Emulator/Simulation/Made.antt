-- ===== src/Emulator/Simulation/Made.antt =====
-- Entries made with the encoders, and what a round does with one of them.
use riscv_vibecoded.Emulator.{
  Kind, lui, addi, cli, cadd, csub, cslli, csrli, candi, cmv, cbeqz, cbnez, caddi, cxor, cor, cand,
  cjal, cjr, State,
}
use riscv_vibecoded.Emulator.Simulation.{round, Simulated}
use riscv_vibecoded.Emulator.Simulation.Alu.{two_registers_simulate, short_immediates_simulate}
use riscv_vibecoded.Emulator.Simulation.Addition.{
  addi_simulates, small_immediates_simulate, moves_simulate,
}
use riscv_vibecoded.Emulator.Simulation.Base.{item-ok, base_instructions_simulate}
use riscv_vibecoded.Emulator.Simulation.Control.{branches_simulate, cjal_simulates, cjr_simulates}
use riscv_vibecoded.Emulator.Bounds.Words.{IsWord}
use riscv_vibecoded.Emulator.Bounds.Run.{WellFormed}
use riscv_vibecoded.Py.Int.Mask.{low32}
use riscv_vibecoded.Encoder.Base
use riscv_vibecoded.Encoder.Base.{itype}
use riscv_vibecoded.Encoder.Compressed.{
  c_sub, c_xor, c_or, c_and, c_addi, c_andi, c_add, c_slli, c_srli, c_li, c_mv, c_beqz, c_bnez,
  c_jal, c_jr,
}
use riscv_vibecoded.Isa.Insn.{Insn, Encodes}
use riscv_vibecoded.Isa.Execute.{execute}
use riscv_vibecoded.Py.Int.{ℤ, pos, negsuc, ◌+ℤ◌, ◌%ℤ◌, ◌≤ℤ◌}
use riscv_vibecoded.Py.Error.{Result, ok}
use riscv_vibecoded.Py.Seq.{item}
use riscv_vibecoded.Prelude.{
  ℕ, ◌<◌, ◌≤◌, ◌^◌, ◌*◌, ◌%◌, List, [], ◌∷◌, length, none, ◌≡◌, sym, ap, subst, ◌∙◌, arith,
}

abbrev pub Short : ℕ → Type 0
Short r = (8 ≤ r) × (r ≤ 15)

-- A register other than x0, and an immediate of 6 bits.
abbrev pub Source : ℕ → Type 0
Source r = (r < 32) × (0 < r)

abbrev pub Small : ℤ → Type 0
Small imm = (negsuc 31 ≤ℤ imm) × (imm ≤ℤ pos 31)

-- An even offset of -2^k .. 2^k - 1 from an address, to an address of 32 bits.
abbrev pub Reach : ℤ → ℕ → ℤ → Type 0
Reach pc k imm =
    (imm %ℤ 2 ≡ 0)
    × (pos 0 ≤ℤ pc +ℤ imm)
    × (pc +ℤ imm ≤ℤ pos 0xFFFFFFFF)
    × (negsuc k ≤ℤ imm)
    × (imm ≤ℤ pos k)

-- The word w is what the encoder gives for a kind and arguments, at an address.
pub data Made (pc w : ℤ) : Kind → List ℤ → Type 0 where
  by_sub :
      (r1 r2 : ℕ)
      → Short r1
      → Short r2
      → c_sub (pos r1) (pos r2) ≡ ok w
      → Made pc w csub (pos r1 ∷ pos r2 ∷ [])
  by_xor :
      (r1 r2 : ℕ)
      → Short r1
      → Short r2
      → c_xor (pos r1) (pos r2) ≡ ok w
      → Made pc w cxor (pos r1 ∷ pos r2 ∷ [])
  by_or :
      (r1 r2 : ℕ)
      → Short r1
      → Short r2
      → c_or (pos r1) (pos r2) ≡ ok w
      → Made pc w cor (pos r1 ∷ pos r2 ∷ [])
  by_and :
      (r1 r2 : ℕ)
      → Short r1
      → Short r2
      → c_and (pos r1) (pos r2) ≡ ok w
      → Made pc w cand (pos r1 ∷ pos r2 ∷ [])
  by_addi :
      (rd r : ℕ) (imm : ℤ)
      → rd < 32
      → r < 32
      → negsuc 2047 ≤ℤ imm
      → imm ≤ℤ pos 2047
      → itype (pos 0) (pos r) (pos rd) imm ≡ w
      → Made pc w addi (pos rd ∷ pos r ∷ imm ∷ [])
  by_lui :
      (rd : ℕ) (upper : ℤ)
      → rd < 32
      → Base.lui (pos rd) upper ≡ w
      → Made pc w lui (pos rd ∷ pos (low32 upper % 2 ^ 20 * 2 ^ 12) ∷ [])
  by_caddi :
      (rd : ℕ) (imm : ℤ)
      → rd < 32
      → Small imm
      → c_addi (pos rd) imm ≡ w
      → Made pc w caddi (pos rd ∷ imm ∷ [])
  by_cli :
      (rd : ℕ) (imm : ℤ)
      → rd < 32
      → Small imm
      → c_li (pos rd) imm ≡ w
      → Made pc w cli (pos rd ∷ imm ∷ [])
  by_candi :
      (r : ℕ) (imm : ℤ)
      → Short r
      → Small imm
      → c_andi (pos r) imm ≡ ok w
      → Made pc w candi (pos r ∷ imm ∷ [])
  by_cslli :
      (r n : ℕ)
      → Short r
      → n < 32
      → c_slli (pos r) (pos n) ≡ w
      → Made pc w cslli (pos r ∷ pos n ∷ [])
  by_csrli :
      (r n : ℕ)
      → Short r
      → n < 32
      → c_srli (pos r) (pos n) ≡ ok w
      → Made pc w csrli (pos r ∷ pos n ∷ [])
  by_cmv :
      (rd r : ℕ)
      → rd < 32
      → Source r
      → c_mv (pos rd) (pos r) ≡ w
      → Made pc w cmv (pos rd ∷ pos r ∷ [])
  by_cadd :
      (rd r : ℕ)
      → rd < 32
      → Source r
      → c_add (pos rd) (pos r) none ≡ ok w
      → Made pc w cadd (pos rd ∷ pos r ∷ [])
  by_cbeqz :
      (r : ℕ) (imm : ℤ)
      → Short r
      → Reach pc 255 imm
      → c_beqz (pos r) imm ≡ ok w
      → Made pc w cbeqz (pos r ∷ imm ∷ [])
  by_cbnez :
      (r : ℕ) (imm : ℤ)
      → Short r
      → Reach pc 255 imm
      → c_bnez (pos r) imm ≡ ok w
      → Made pc w cbnez (pos r ∷ imm ∷ [])
  by_cjal : (imm : ℤ) → Reach pc 2047 imm → c_jal imm ≡ w → Made pc w cjal (imm ∷ [])
  by_cjr : (r : ℕ) → Source r → c_jr (pos r) ≡ w → Made pc w cjr (pos r ∷ [])

-- A round does what the word says, which is the encoding of an instruction.
abbrev pub Agrees : ℤ → Kind → List ℤ → State → Type 0
Agrees w k a s = (n : ℕ) × (i : Insn) × Encodes w n i × (round k w a s ≡ execute i n s)

agrees :
    {m : Result ℤ} {n : ℕ} (k : Kind) (a : List ℤ) (s : State) {w : ℤ}
    → m ≡ ok w
    → Simulated m n k a s
    → Agrees w k a s
agrees {n = n} k a s {w = w} made (v, given, i, encodes, same) =
    subst (λ (t : ℤ). Agrees t k a s) (value v (sym given ∙ made)) (n, i, encodes, same)
  where
    value : (v : ℤ) → ok v ≡ ok w → v ≡ w
    value v e = ground arith

module _ (w : ℤ) (s : State) (well : WellFormed s) (full : length s.regs ≡ 32) where
  -- A register holds a 32-bit word.
  held : (r : ℕ) → r < 32 → (v : ℕ) × (item s.regs (pos r) ≡ ok (pos v)) × (v < 2 ^ 32)
  held r h = let (x, e) = item-ok s.regs r full h in natural x e (well.regs (pos r) x e)
    where
      natural :
          (x : ℤ)
          → item s.regs (pos r) ≡ ok x
          → IsWord x
          → (v : ℕ) × (item s.regs (pos r) ≡ ok (pos v)) × (v < 2 ^ 32)
      natural (pos v) e word = (v, e, ground arith)
      natural (negsuc v) e word = absurd (ground arith)

  pub Made-Agrees : (k : Kind) (a : List ℤ) → Made s.pc w k a → Agrees w k a s
  Made-Agrees _ _ (by_sub r1 r2 h1 h2 e) =
      agrees _ _ s e (two_registers_simulate s r1 r2 h1.0 h1.1 h2.0 h2.1).0
  Made-Agrees _ _ (by_xor r1 r2 h1 h2 e) =
      agrees _ _ s e (two_registers_simulate s r1 r2 h1.0 h1.1 h2.0 h2.1).1
  Made-Agrees _ _ (by_or r1 r2 h1 h2 e) =
      agrees _ _ s e (two_registers_simulate s r1 r2 h1.0 h1.1 h2.0 h2.1).2
  Made-Agrees _ _ (by_and r1 r2 h1 h2 e) =
      agrees _ _ s e (two_registers_simulate s r1 r2 h1.0 h1.1 h2.0 h2.1).3
  Made-Agrees _ _ (by_addi rd r imm hd hr lo hi e) =
      agrees _ _ s (ap ok e) (addi_simulates s rd r imm hd hr lo hi)
  Made-Agrees _ _ (by_lui rd upper hd e) =
      agrees _ _ s (ap ok e)
        (base_instructions_simulate s rd 0 (pos 0) upper full hd (omega arith) (omega arith)
          (omega arith)).1
  Made-Agrees _ _ (by_caddi rd imm hd h e) =
      agrees _ _ s (ap ok e) (small_immediates_simulate s rd imm well.x0 hd h.0 h.1).0
  Made-Agrees _ _ (by_cli rd imm hd h e) =
      agrees _ _ s (ap ok e) (small_immediates_simulate s rd imm well.x0 hd h.0 h.1).1
  Made-Agrees _ _ (by_candi r imm h hi e) =
      agrees _ _ s e (short_immediates_simulate s r 0 imm h.0 h.1 (omega arith) hi.0 hi.1).0
  Made-Agrees _ _ (by_cslli r n h hn e) =
      agrees _ _ s (ap ok e)
        (short_immediates_simulate s r n (pos 0) h.0 h.1 hn (omega arith) (omega arith)).1
  Made-Agrees _ _ (by_csrli r n h hn e) =
      agrees _ _ s e
        (short_immediates_simulate s r n (pos 0) h.0 h.1 hn (omega arith) (omega arith)).2
  Made-Agrees _ _ (by_cmv rd r hd hr e) =
      let (v, h, word) = held r hr.0 in
      agrees _ _ s (ap ok e) (moves_simulate s rd r v well.x0 hd hr.0 hr.1 h word).0
  Made-Agrees _ _ (by_cadd rd r hd hr e) =
      let (v, h, word) = held r hr.0 in
      agrees _ _ s e (moves_simulate s rd r v well.x0 hd hr.0 hr.1 h word).1
  Made-Agrees _ _ (by_cbeqz r imm h (even, lo, hi, least, most) e) =
      agrees _ _ s e (branches_simulate s imm even lo hi r well.x0 h.0 h.1 least most).0
  Made-Agrees _ _ (by_cbnez r imm h (even, lo, hi, least, most) e) =
      agrees _ _ s e (branches_simulate s imm even lo hi r well.x0 h.0 h.1 least most).1
  Made-Agrees _ _ (by_cjal imm (even, lo, hi, least, most) e) =
      agrees _ _ s (ap ok e) (cjal_simulates s imm even lo hi least most)
  Made-Agrees _ _ (by_cjr r hr e) =
      let (v, h, word) = held r hr.0 in
      agrees _ _ s (ap ok e) (cjr_simulates s r v hr.0 hr.1 h word)
