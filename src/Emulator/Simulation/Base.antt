-- ===== src/Emulator/Simulation/Base.antt =====
-- The emulator's two kinds of 32-bit instructions against the instruction set.
use riscv_vibecoded.Emulator.{lui, addi, State}
use riscv_vibecoded.Emulator.Simulation.{round, Simulated}
use riscv_vibecoded.Emulator.Simulation.Addition.{addi_simulates}
use riscv_vibecoded.Emulator.Step.{dispatch, commit, blank, write_register, write_memory}
use riscv_vibecoded.Isa.Insn.{load_upper}
use riscv_vibecoded.Isa.Execute.{execute, retire}
use riscv_vibecoded.Encoder.Base
use riscv_vibecoded.Encoder.Base.{itype}
use riscv_vibecoded.RoundTrip.Base.{lui-Encodes}
use riscv_vibecoded.Py.Int.{ℤ, pos, negsuc, ◌&ℤ◌, ◌>>ℤ◌, ◌%ℤ◌, ◌≤ℤ◌}
use riscv_vibecoded.Py.Int.Mask.{low32, and_mask}
use riscv_vibecoded.Py.Error.{ok}
use riscv_vibecoded.Py.Seq.{item}
use riscv_vibecoded.Prelude.{
  ℕ, zero, suc, ◌*◌, ◌%◌, ◌^◌, ◌<◌, List, [], ◌∷◌, length, get_elem?, some, ◌≡◌, refl, ap, ◌∙◌,
  arith,
}

get_elem?-some :
    {A : Type 0} (xs : List A) (i : ℕ) → i < length xs → (x : A) × (get_elem? xs i ≡ some x)
get_elem?-some [] i h = absurd (omega arith)
get_elem?-some (x ∷ xs) zero h = (x, refl)
get_elem?-some (x ∷ xs) (suc i) h = get_elem?-some xs i (omega arith)

-- Each of 32 registers can be read.
pub item-ok :
    (regs : List ℤ) (f : ℕ) → length regs ≡ 32 → f < 32 → (x : ℤ) × (item regs (pos f) ≡ ok x)
unfolding item
item-ok regs f full h = let (x, held) = get_elem?-some regs f (omega arith) in (x, ground arith)

five_bits : (x : ℤ) → x %ℤ 32 < 32
unfolding ◌%ℤ◌
five_bits (pos n) = omega arith
five_bits (negsuc n) = omega arith

lui_executes :
    (w : ℤ) (s : State) (rd v : ℕ)
    → length s.regs ≡ 32
    → round lui w (pos rd ∷ pos v ∷ []) s ≡ execute (load_upper rd v) 4 s
unfolding dispatch commit blank execute retire write_register write_memory
lui_executes w s rd v full =
    let field = (w >>ℤ 15) %ℤ 32 in
    let (x, held) = item-ok s.regs field full (five_bits (w >>ℤ 15)) in
    let read : item s.regs ((w >>ℤ 15) &ℤ pos 0x1F) ≡ ok x =
      ap (item s.regs) (and_mask 5 (w >>ℤ 15)) ∙ held in
    loaded rd x read
  where
    loaded :
        (rd : ℕ) (x : ℤ)
        → item s.regs ((w >>ℤ 15) &ℤ pos 0x1F) ≡ ok x
        → round lui w (pos rd ∷ pos v ∷ []) s ≡ execute (load_upper rd v) 4 s
    loaded zero x read = unfold item in ground (arith, read)
    loaded (suc rd) x read = unfold item in ground (arith, read)

-- For 32 registers, a destination and a source below 32, an immediate of -2048 .. 2047 for addi and any
-- for lui: a round of `addi`, and a round of `lui` with the value that the immediate stands for, do what the
-- words of `itype` with funct3 0 and of `lui` say.
pub base_instructions_simulate :
    (s : State) (rd r : ℕ) (imm upper : ℤ)
    → length s.regs ≡ 32
    → rd < 32
    → r < 32
    → negsuc 2047 ≤ℤ imm
    → imm ≤ℤ pos 2047
    → Simulated (ok (itype (pos 0) (pos r) (pos rd) imm)) 4 addi (pos rd ∷ pos r ∷ imm ∷ []) s
      × Simulated
          (ok (Base.lui (pos rd) upper))
          4
          lui
          (pos rd ∷ pos (low32 upper % 2 ^ 20 * 2 ^ 12) ∷ [])
          s
base_instructions_simulate s rd r imm upper full hd hr lo hi = (
  addi_simulates s rd r imm hd hr lo hi,
  (
    Base.lui (pos rd) upper,
    refl,
    _,
    lui-Encodes rd upper hd,
    lui_executes (Base.lui (pos rd) upper) s rd (low32 upper % 2 ^ 20 * 2 ^ 12) full,
  ),
)
