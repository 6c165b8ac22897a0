-- ===== src/Emulator/Simulation/Memory.antt =====
-- The emulator's kinds of loads and stores against the instruction set.
use riscv_vibecoded.Emulator.{cswsp, clwsp, clw, csw, State}
use riscv_vibecoded.Emulator.Simulation.{Simulated}
use riscv_vibecoded.Emulator.Step.{
  dispatch, commit, blank, write_register, write_memory, store_word, load_word,
}
use riscv_vibecoded.Isa.Insn.{load_from, store_to}
use riscv_vibecoded.Isa.Execute.{execute, retire}
use riscv_vibecoded.Encoder.Compressed.{c_lw, c_sw, c_lwsp, c_swsp}
use riscv_vibecoded.RoundTrip.Memory.{c_lw_sw-Encodes, c_lwsp-Encodes, c_swsp-Encodes}
use riscv_vibecoded.Py.Int.{ℤ, pos, negsuc, ◌+ℤ◌, ◌&ℤ◌, ◌%ℤ◌}
use riscv_vibecoded.Py.Int.Mask.{low32}
use riscv_vibecoded.Py.Error.{ok, ◌>>=◌}
use riscv_vibecoded.Py.Seq.{item}
use riscv_vibecoded.Bits.{bit_and_mask}
use riscv_vibecoded.Prelude.{ℕ, ◌+◌, ◌^◌, ◌%◌, List, [], ◌∷◌, ◌≡◌, refl, ap, ◌<◌, ◌≤◌, arith}

-- An aligned address is not rounded.
aligned : (a : ℕ) → a % 4 ≡ 0 → (pos a &ℤ negsuc 3) ≡ pos a
unfolding ◌&ℤ◌
aligned a h = ap pos (omega (arith, bit_and_mask 2 a))

module _ (s : State) (base r1 offset : ℕ) (held : item s.regs (pos r1) ≡ ok (pos base))
    (inside : base + offset < 2 ^ 32) (whole : (base + offset) % 4 ≡ 0) where
  address : (pos base +ℤ pos offset) &ℤ negsuc 3 ≡ pos (low32 (pos base +ℤ pos offset))
  unfolding ◌+ℤ◌ ◌%ℤ◌
  address = ground (arith, aligned (base + offset))

  module _ (w : ℤ) (a : List ℤ) (r : ℕ) where
    load_executes :
        (load_word w a s (pos r1) (pos r) (pos offset) >>= commit s)
        ≡ execute (load_from 2 r1 r offset) 2 s
    unfolding load_word commit blank execute retire write_register write_memory
    load_executes = ground (arith, address, held)

    store_executes :
        (store_word w a s (pos r1) (pos r) (pos offset) >>= commit s)
        ≡ execute (store_to 2 r1 r offset) 2 s
    unfolding store_word commit blank execute retire write_register write_memory
    store_executes = ground (arith, address, held)

module _ (s : State) (base r offset : ℕ) (inside : base + offset < 2 ^ 32) (whole : offset % 4 ≡ 0)
    (base_whole : base % 4 ≡ 0) where
  sum_whole : (base + offset) % 4 ≡ 0
  sum_whole = omega arith

  -- For registers of x8 .. x15, the first holding an address, and an offset of 0 .. 124, both
  -- multiples of 4 with a sum below 2 ^ 32, a round of `clw` or `csw` does what the word of `c_lw`
  -- or `c_sw` says: the same access, or the same exception.
  pub word_accesses_simulate :
      (r1 : ℕ)
      → item s.regs (pos r1) ≡ ok (pos base)
      → 8 ≤ r1
      → r1 ≤ 15
      → 8 ≤ r
      → r ≤ 15
      → offset < 128
      → Simulated (c_lw (pos r1) (pos r) (pos offset)) 2 clw (pos r1 ∷ pos r ∷ pos offset ∷ []) s
        × Simulated (c_sw (pos r1) (pos r) (pos offset)) 2 csw (pos r1 ∷ pos r ∷ pos offset ∷ []) s
  unfolding dispatch item
  word_accesses_simulate r1 held lo1 hi1 lo2 hi2 below =
      let (lw, sw) = c_lw_sw-Encodes r1 r offset lo1 hi1 lo2 hi2 below whole in
      (
        (lw.0, lw.1, _, lw.2, load_executes s base r1 offset held inside sum_whole lw.0 [] r),
        (sw.0, sw.1, _, sw.2, store_executes s base r1 offset held inside sum_whole sw.0 [] r),
      )

  module _ (held : item s.regs (pos 2) ≡ ok (pos base)) (hr : r < 32) (below : offset < 256) where
    clwsp_simulates :
        0 < r → Simulated (ok (c_lwsp (pos r) (pos offset))) 2 clwsp (pos r ∷ pos offset ∷ []) s
    unfolding dispatch item
    clwsp_simulates nonzero = (
      c_lwsp (pos r) (pos offset),
      refl,
      _,
      c_lwsp-Encodes r offset hr below whole nonzero,
      load_executes s base 2 offset held inside sum_whole (c_lwsp (pos r) (pos offset)) [] r,
    )

    cswsp_simulates :
        Simulated (ok (c_swsp (pos r) (pos offset))) 2 cswsp (pos r ∷ pos offset ∷ []) s
    unfolding dispatch item
    cswsp_simulates = (
      c_swsp (pos r) (pos offset),
      refl,
      _,
      c_swsp-Encodes r offset hr below whole,
      store_executes s base 2 offset held inside sum_whole (c_swsp (pos r) (pos offset)) [] r,
    )

    -- For a register of x1 .. x31 and an offset of 0 .. 252 to the address that x2 holds, both multiples
    -- of 4 with a sum below 2 ^ 32, a round of `clwsp` or `cswsp` does what the word of `c_lwsp` or
    -- `c_swsp` says: the same access, or the same exception.
    pub stack_accesses_simulate :
        0 < r
        → Simulated (ok (c_lwsp (pos r) (pos offset))) 2 clwsp (pos r ∷ pos offset ∷ []) s
          × Simulated (ok (c_swsp (pos r) (pos offset))) 2 cswsp (pos r ∷ pos offset ∷ []) s
    stack_accesses_simulate nonzero = (clwsp_simulates nonzero, cswsp_simulates)
