-- ===== src/Emulator/Simulation/Control.antt =====
-- The emulator's kinds of branches and jumps against the instruction set.
use riscv_vibecoded.Emulator.{cbeqz, cbnez, cjal, cjr, State}
use riscv_vibecoded.Emulator.Simulation.{round, Simulated, low32-add, low32_word}
use riscv_vibecoded.Emulator.Step.{
  dispatch, commit, blank, write_register, write_memory, branch_on, branch_pcw,
}
use riscv_vibecoded.Isa.Insn.{jump_link, jump_link_reg, branch_if}
use riscv_vibecoded.Isa.Execute.{execute, condition, retire}
use riscv_vibecoded.Encoder.Compressed.{c_beqz, c_bnez, c_jal, c_jr}
use riscv_vibecoded.RoundTrip.Compressed.{c_jump-Encodes}
use riscv_vibecoded.RoundTrip.Scattered.{c_branches-Encodes, c_jumps-Encodes}
use riscv_vibecoded.Py.Int.{ℤ, pos, negsuc, ◌+ℤ◌, ◌%ℤ◌, ◌≤ℤ◌}
use riscv_vibecoded.Py.Int.Mask.{low32}
use riscv_vibecoded.Py.Error.{ok}
use riscv_vibecoded.Py.Seq.{item}
use riscv_vibecoded.Prelude.{ℕ, ◌^◌, [], ◌∷◌, ◌≡◌, refl, sym, ap, ◌∙◌, ◌<◌, ◌≤◌, arith}

module _ (w : ℤ) (s : State) (imm : ℤ) (lo : pos 0 ≤ℤ s.pc +ℤ imm)
    (hi : s.pc +ℤ imm ≤ℤ pos 0xFFFFFFFF) where
  target : pos (low32 (s.pc +ℤ pos (low32 imm))) ≡ s.pc +ℤ imm
  target = ap pos (sym (low32-add s.pc imm)) ∙ low32_word (s.pc +ℤ imm) lo hi

  module _ (r : ℕ) (x0 : item s.regs (pos 0) ≡ ok (pos 0)) where
    cbeqz_executes : round cbeqz w (pos r ∷ imm ∷ []) s ≡ execute (branch_if 0 r 0 (low32 imm)) 2 s
    unfolding dispatch branch_on branch_pcw commit blank execute condition write_register
        write_memory item
    cbeqz_executes = ground (arith, target, x0)

    cbnez_executes : round cbnez w (pos r ∷ imm ∷ []) s ≡ execute (branch_if 1 r 0 (low32 imm)) 2 s
    unfolding dispatch branch_on branch_pcw commit blank execute condition write_register
        write_memory item
    cbnez_executes = ground (arith, target, x0)

  cjal_executes : round cjal w (imm ∷ []) s ≡ execute (jump_link 1 (low32 imm)) 2 s
  unfolding dispatch commit blank execute retire write_register write_memory item
  cjal_executes = ground (arith, target)

cjr_executes :
    (w : ℤ) (s : State) (r v : ℕ)
    → item s.regs (pos r) ≡ ok (pos v)
    → v < 2 ^ 32
    → round cjr w (pos r ∷ []) s ≡ execute (jump_link_reg r 0 0) 2 s
unfolding dispatch commit blank execute retire write_register write_memory item ◌+ℤ◌ ◌%ℤ◌
cjr_executes w s r v held word = ground arith

module _ (s : State) (imm : ℤ) (even : imm %ℤ 2 ≡ 0) (lo : pos 0 ≤ℤ s.pc +ℤ imm)
    (hi : s.pc +ℤ imm ≤ℤ pos 0xFFFFFFFF) where
  -- For a register of x8 .. x15, with 0 in x0, and an even offset of -256 .. 255 that leads to an
  -- address of 32 bits, a round of `cbeqz` or `cbnez` does what the word of `c_beqz` or `c_bnez`
  -- says, whether the branch is taken or not.
  pub branches_simulate :
      (r : ℕ)
      → item s.regs (pos 0) ≡ ok (pos 0)
      → 8 ≤ r
      → r ≤ 15
      → negsuc 255 ≤ℤ imm
      → imm ≤ℤ pos 255
      → Simulated (c_beqz (pos r) imm) 2 cbeqz (pos r ∷ imm ∷ []) s
        × Simulated (c_bnez (pos r) imm) 2 cbnez (pos r ∷ imm ∷ []) s
  branches_simulate r x0 low high least most =
      let (beqz, bnez) = c_branches-Encodes imm even r low high least most in
      (
        (beqz.0, beqz.1, _, beqz.2, cbeqz_executes beqz.0 s imm lo hi r x0),
        (bnez.0, bnez.1, _, bnez.2, cbnez_executes bnez.0 s imm lo hi r x0),
      )

  pub cjal_simulates :
      negsuc 2047 ≤ℤ imm → imm ≤ℤ pos 2047 → Simulated (ok (c_jal imm)) 2 cjal (imm ∷ []) s
  cjal_simulates least most =
      let (j, jal) = c_jumps-Encodes imm even least most in
      (c_jal imm, refl, _, jal, cjal_executes (c_jal imm) s imm lo hi)

pub cjr_simulates :
    (s : State) (r v : ℕ)
    → r < 32
    → 0 < r
    → item s.regs (pos r) ≡ ok (pos v)
    → v < 2 ^ 32
    → Simulated (ok (c_jr (pos r))) 2 cjr (pos r ∷ []) s
cjr_simulates s r v hr nonzero held word =
    let (jr, jalr, ebreak) = c_jump-Encodes r hr nonzero in
    (c_jr (pos r), refl, _, jr, cjr_executes (c_jr (pos r)) s r v held word)

-- For an even offset of -2048 .. 2047 that leads to an address of 32 bits, and a register of x1 .. x31
-- that holds a 32-bit word, a round of `cjal` with that offset or of `cjr` with that register does
-- what the word of `c_jal` or `c_jr` says.
pub jumps_simulate :
    (s : State) (imm : ℤ) (r v : ℕ)
    → imm %ℤ 2 ≡ 0
    → pos 0 ≤ℤ s.pc +ℤ imm
    → s.pc +ℤ imm ≤ℤ pos 0xFFFFFFFF
    → negsuc 2047 ≤ℤ imm
    → imm ≤ℤ pos 2047
    → r < 32
    → 0 < r
    → item s.regs (pos r) ≡ ok (pos v)
    → v < 2 ^ 32
    → Simulated (ok (c_jal imm)) 2 cjal (imm ∷ []) s
      × Simulated (ok (c_jr (pos r))) 2 cjr (pos r ∷ []) s
jumps_simulate s imm r v even lo hi least most hr nonzero held word =
    (cjal_simulates s imm even lo hi least most, cjr_simulates s r v hr nonzero held word)
