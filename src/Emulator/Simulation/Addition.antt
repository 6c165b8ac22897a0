-- ===== src/Emulator/Simulation/Addition.antt =====
-- The emulator's kinds of additions and moves against the instruction set.
use riscv_vibecoded.Emulator.{addi, cli, cadd, cmv, caddi, State}
use riscv_vibecoded.Emulator.Simulation.{round, Simulated, m32_lem, m32-add, two_registers-executes}
use riscv_vibecoded.Emulator.Alu.{m32}
use riscv_vibecoded.Emulator.Step.{dispatch, commit, blank, write_register, write_memory}
use riscv_vibecoded.Isa.Insn.{op, op_imm}
use riscv_vibecoded.Isa.Execute.{execute, alu, alu_imm, retire}
use riscv_vibecoded.Encoder.Base.{itype}
use riscv_vibecoded.Encoder.Compressed.{c_addi, c_add, c_li, c_mv}
use riscv_vibecoded.RoundTrip.Base.{itype-Encodes}
use riscv_vibecoded.RoundTrip.Compressed.{c_add-Encodes, c_li-Encodes, c_mv-Encodes}
use riscv_vibecoded.Py.Int.{ℤ, pos, negsuc, ◌+ℤ◌, ◌%ℤ◌, ◌≤ℤ◌}
use riscv_vibecoded.Py.Int.Mask.{low32, low32-lt}
use riscv_vibecoded.Py.Error.{ok, Result-cases}
use riscv_vibecoded.Py.Seq.{item}
use riscv_vibecoded.Prelude.{ℕ, zero, suc, ◌^◌, [], ◌∷◌, ◌≡◌, refl, ap, ◌<◌, inl, inr, none, arith}
use riscv_vibecoded.Emulator.Simulation.Alu.{caddi_simulates}

low32-zero : (v : ℕ) → v < 2 ^ 32 → pos (low32 (pos 0 +ℤ pos v)) ≡ pos v
unfolding ◌+ℤ◌ ◌%ℤ◌
low32-zero v word = ground arith

module _ (s : State) (rd rs2 : ℕ) (hd : rd < 32) (h2 : rs2 < 32) (nonzero : 0 < rs2) where
  cadd_simulates : Simulated (c_add (pos rd) (pos rs2) none) 2 cadd (pos rd ∷ pos rs2 ∷ []) s
  unfolding dispatch alu
  cadd_simulates =
      let ((w, given, encodes), other) = c_add-Encodes rd rs2 hd h2 nonzero in
      (
        w,
        given,
        _,
        encodes,
        two_registers-executes w s 0 0 (λ x y. ok (m32 (x +ℤ y))) rd rs2
            (λ x y. ap ok (m32_lem (x +ℤ y))),
      )

module _ (w : ℤ) (s : State) (x0 : item s.regs (pos 0) ≡ ok (pos 0)) where
  cli_executes :
      (rd : ℕ) (imm : ℤ)
      → round cli w (pos rd ∷ imm ∷ []) s ≡ execute (op_imm 0 0 rd (low32 imm)) 2 s
  unfolding dispatch commit blank execute alu_imm alu retire write_register write_memory item
  cli_executes zero imm = ground (arith, x0, m32_lem imm, low32-zero (low32 imm) (low32-lt imm))
  cli_executes (suc rd) imm = ground (arith, x0, m32_lem imm, low32-zero (low32 imm) (low32-lt imm))

  cmv_executes :
      (rd r v : ℕ)
      → item s.regs (pos r) ≡ ok (pos v)
      → v < 2 ^ 32
      → round cmv w (pos rd ∷ pos r ∷ []) s ≡ execute (op 0 0 0 r rd) 2 s
  unfolding dispatch commit blank execute alu retire write_register write_memory item
  cmv_executes zero r v held word = ground (arith, x0, held, low32-zero v word)
  cmv_executes (suc rd) r v held word = ground (arith, x0, held, low32-zero v word)

addi_executes :
    (w : ℤ) (s : State) (rd r : ℕ) (imm : ℤ)
    → round addi w (pos rd ∷ pos r ∷ imm ∷ []) s ≡ execute (op_imm 0 r rd (low32 imm)) 4 s
unfolding dispatch commit blank execute alu_imm alu retire write_register write_memory item
addi_executes w s rd r imm = elim (Result-cases (item s.regs (pos r))) [
  | inl (x, held) ↦ added rd x held
  | inr (e, failed) ↦ ground (arith, failed)
]
  where
    added :
        (rd : ℕ) (x : ℤ)
        → item s.regs (pos r) ≡ ok x
        → round addi w (pos rd ∷ pos r ∷ imm ∷ []) s ≡ execute (op_imm 0 r rd (low32 imm)) 4 s
    added zero x held = ground (arith, held, m32-add x imm)
    added (suc rd) x held = ground (arith, held, m32-add x imm)

module _ (s : State) (rd r : ℕ) (imm : ℤ) (hd : rd < 32) where
  -- For registers below 32 and an immediate of -2048 .. 2047, a round of `addi` does what the word of
  -- `itype` with funct3 0 says.
  pub addi_simulates :
      r < 32
      → negsuc 2047 ≤ℤ imm
      → imm ≤ℤ pos 2047
      → Simulated (ok (itype (pos 0) (pos r) (pos rd) imm)) 4 addi (pos rd ∷ pos r ∷ imm ∷ []) s
  addi_simulates hr lo hi = (
    itype (pos 0) (pos r) (pos rd) imm,
    refl,
    _,
    itype-Encodes 0 r rd imm (omega arith) hr hd lo hi,
    addi_executes (itype (pos 0) (pos r) (pos rd) imm) s rd r imm,
  )

  module _ (x0 : item s.regs (pos 0) ≡ ok (pos 0)) where
    cli_simulates :
        negsuc 31 ≤ℤ imm
        → imm ≤ℤ pos 31
        → Simulated (ok (c_li (pos rd) imm)) 2 cli (pos rd ∷ imm ∷ []) s
    cli_simulates lo hi = (
      c_li (pos rd) imm,
      refl,
      _,
      c_li-Encodes rd imm hd lo hi,
      cli_executes (c_li (pos rd) imm) s x0 rd imm,
    )

    cmv_simulates :
        (v : ℕ)
        → r < 32
        → 0 < r
        → item s.regs (pos r) ≡ ok (pos v)
        → v < 2 ^ 32
        → Simulated (ok (c_mv (pos rd) (pos r))) 2 cmv (pos rd ∷ pos r ∷ []) s
    cmv_simulates v hr nonzero held word = (
      c_mv (pos rd) (pos r),
      refl,
      _,
      c_mv-Encodes rd r hd hr nonzero,
      cmv_executes (c_mv (pos rd) (pos r)) s x0 rd r v held word,
    )

-- For a register below 32 and an immediate of -32 .. 31, with 0 in x0, a round of `caddi` or `cli`
-- does what the word of `c_addi` or `c_li` says.
pub small_immediates_simulate :
    (s : State) (rd : ℕ) (imm : ℤ)
    → item s.regs (pos 0) ≡ ok (pos 0)
    → rd < 32
    → negsuc 31 ≤ℤ imm
    → imm ≤ℤ pos 31
    → Simulated (ok (c_addi (pos rd) imm)) 2 caddi (pos rd ∷ imm ∷ []) s
      × Simulated (ok (c_li (pos rd) imm)) 2 cli (pos rd ∷ imm ∷ []) s
small_immediates_simulate s rd imm x0 hd lo hi =
    (caddi_simulates s rd imm lo hi hd, cli_simulates s rd 0 imm hd x0 lo hi)

-- For registers below 32 with a source other than x0 that holds a 32-bit word, with 0 in x0, a round
-- of `cmv` or `cadd` does what the word of `c_mv` or `c_add` says.
pub moves_simulate :
    (s : State) (rd r v : ℕ)
    → item s.regs (pos 0) ≡ ok (pos 0)
    → rd < 32
    → r < 32
    → 0 < r
    → item s.regs (pos r) ≡ ok (pos v)
    → v < 2 ^ 32
    → Simulated (ok (c_mv (pos rd) (pos r))) 2 cmv (pos rd ∷ pos r ∷ []) s
      × Simulated (c_add (pos rd) (pos r) none) 2 cadd (pos rd ∷ pos r ∷ []) s
moves_simulate s rd r v x0 hd hr nonzero held word =
    (cmv_simulates s rd r (pos 0) hd x0 v hr nonzero held word, cadd_simulates s rd r hd hr nonzero)
