-- ===== src/Emulator/Simulation/Alu.antt =====
-- The emulator's kinds of operations on x8 .. x15 and their immediates against the instruction set.
use riscv_vibecoded.Emulator.{csub, cslli, csrli, candi, caddi, cxor, cor, cand, State}
use riscv_vibecoded.Emulator.Simulation.{
  Simulated, m32_lem, m32-add, two_registers-executes, one_register-executes,
}
use riscv_vibecoded.Emulator.Alu.{m32, arith_op, Op, shift_left, shift_right}
use riscv_vibecoded.Emulator.Step.{dispatch}
use riscv_vibecoded.Isa.Execute.{alu, alu_imm}
use riscv_vibecoded.Encoder.Compressed.{c_sub, c_xor, c_or, c_and, c_addi, c_andi, c_slli, c_srli}
use riscv_vibecoded.RoundTrip.Short.{c_alu-Encodes, c_andi-Encodes, c_shift-Encodes}
use riscv_vibecoded.RoundTrip.Compressed.{c_addi-Encodes, c_slli-Encodes}
use riscv_vibecoded.Py.Int.{ℤ, pos, negsuc, ◌+ℤ◌, ◌-ℤ◌, ◌&ℤ◌, ◌≤ℤ◌, ◌<<ℤ◌}
use riscv_vibecoded.Py.Int.Mask.{low32}
use riscv_vibecoded.Py.Error.{ok}
use riscv_vibecoded.Prelude.{ℕ, [], ◌∷◌, refl, ap, ◌<◌, ◌≤◌, arith}

module _ (s : State) (r1 r2 : ℕ) (lo1 : 8 ≤ r1) (hi1 : r1 ≤ 15) (lo2 : 8 ≤ r2) (hi2 : r2 ≤ 15) where
  -- For registers of x8 .. x15, and whatever they hold, a round of `csub`, `cxor`, `cor` or `cand`
  -- does what the word of `c_sub`, `c_xor`, `c_or` or `c_and` says.
  pub two_registers_simulate :
      Simulated (c_sub (pos r1) (pos r2)) 2 csub (pos r1 ∷ pos r2 ∷ []) s
      × Simulated (c_xor (pos r1) (pos r2)) 2 cxor (pos r1 ∷ pos r2 ∷ []) s
      × Simulated (c_or (pos r1) (pos r2)) 2 cor (pos r1 ∷ pos r2 ∷ []) s
      × Simulated (c_and (pos r1) (pos r2)) 2 cand (pos r1 ∷ pos r2 ∷ []) s
  unfolding dispatch alu arith_op
  two_registers_simulate =
      let (sub, xor, or, and) = c_alu-Encodes r1 r2 lo1 hi1 lo2 hi2 in
      (
        (
          sub.0,
          sub.1,
          _,
          sub.2,
          two_registers-executes sub.0 s 0x20 0 (λ x y. ok (m32 (x -ℤ y))) r1 r2
              (λ x y. ap ok (m32_lem (x -ℤ y))),
        ),
        (
          xor.0,
          xor.1,
          _,
          xor.2,
          two_registers-executes xor.0 s 0 4 (arith_op Op.xor) r1 r2 (λ x y. refl),
        ),
        (
          or.0,
          or.1,
          _,
          or.2,
          two_registers-executes or.0 s 0 6 (arith_op Op.or) r1 r2 (λ x y. refl),
        ),
        (
          and.0,
          and.1,
          _,
          and.2,
          two_registers-executes and.0 s 0 7 (arith_op Op.and) r1 r2 (λ x y. refl),
        ),
      )

module _ (s : State) (r : ℕ) (imm : ℤ) (lo : negsuc 31 ≤ℤ imm) (hi : imm ≤ℤ pos 31) where
  pub caddi_simulates : r < 32 → Simulated (ok (c_addi (pos r) imm)) 2 caddi (pos r ∷ imm ∷ []) s
  unfolding dispatch alu_imm alu
  caddi_simulates hr = (
    c_addi (pos r) imm,
    refl,
    _,
    c_addi-Encodes r imm hr lo hi,
    one_register-executes (c_addi (pos r) imm) s 0 (low32 imm) (λ x y. ok (m32 (x +ℤ y))) r imm
        (λ x. ap ok (m32-add x imm)),
  )

  candi_simulates : 8 ≤ r → r ≤ 15 → Simulated (c_andi (pos r) imm) 2 candi (pos r ∷ imm ∷ []) s
  unfolding dispatch alu_imm alu
  candi_simulates low high =
      let (w, given, encodes) = c_andi-Encodes r imm low high lo hi in
      (
        w,
        given,
        _,
        encodes,
        one_register-executes w s 7 (low32 imm) (λ x y. ok (x &ℤ m32 y)) r imm
            (λ x. ap (λ (t : ℤ). ok (x &ℤ t)) (m32_lem imm)),
      )

module _ (s : State) (r n : ℕ) (hn : n < 32) where
  cslli_simulates : r < 32 → Simulated (ok (c_slli (pos r) (pos n))) 2 cslli (pos r ∷ pos n ∷ []) s
  unfolding dispatch alu_imm shift_left
  cslli_simulates hr = (
    c_slli (pos r) (pos n),
    refl,
    _,
    c_slli-Encodes r n hr hn,
    one_register-executes (c_slli (pos r) (pos n)) s 1 n _ r (pos n)
        (λ x. ap ok (m32_lem (x <<ℤ n))),
  )

  csrli_simulates :
      8 ≤ r → r ≤ 15 → Simulated (c_srli (pos r) (pos n)) 2 csrli (pos r ∷ pos n ∷ []) s
  unfolding dispatch alu_imm shift_right
  csrli_simulates lo hi =
      let ((w, given, encodes), other) = c_shift-Encodes r n lo hi hn in
      (
        w,
        given,
        _,
        encodes,
        one_register-executes w s 5 n shift_right r (pos n) (λ x. ground arith),
      )

-- For a register of x8 .. x15, whatever it holds, an immediate of -32 .. 31 and an amount of 0 .. 31, a
-- round of `candi`, `cslli` or `csrli` does what the word of `c_andi`, `c_slli` or `c_srli` says.
pub short_immediates_simulate :
    (s : State) (r n : ℕ) (imm : ℤ)
    → 8 ≤ r
    → r ≤ 15
    → n < 32
    → negsuc 31 ≤ℤ imm
    → imm ≤ℤ pos 31
    → Simulated (c_andi (pos r) imm) 2 candi (pos r ∷ imm ∷ []) s
      × Simulated (ok (c_slli (pos r) (pos n))) 2 cslli (pos r ∷ pos n ∷ []) s
      × Simulated (c_srli (pos r) (pos n)) 2 csrli (pos r ∷ pos n ∷ []) s
short_immediates_simulate s r n imm low high hn lo hi = (
  candi_simulates s r imm lo hi low high,
  cslli_simulates s r n hn (omega arith),
  csrli_simulates s r n hn low high,
)
