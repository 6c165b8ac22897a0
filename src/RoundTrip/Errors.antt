-- ===== src/RoundTrip/Errors.antt =====
-- When the RV32C helpers of tools/riscv_enc.py raise a ValueError.
use riscv_vibecoded.Encoder.Compressed.{
  spn, c_shift, c_alu, c_add, c_addi4spn, c_srli, c_srai, c_andi, c_sub, c_xor, c_or, c_and, c_beqz,
  c_bnez, c_lw, c_sw,
}
use riscv_vibecoded.Py.Error.{err, value_error}
use riscv_vibecoded.Py.Int.{ℤ, pos, negsuc, ◌≤ℤ◌}
use riscv_vibecoded.Prelude.{◌≡◌, ◌≢◌, ◌⊎◌, ap, some, arith}

-- `c_add` with a third argument that differs from the first raises a ValueError, whatever the
-- registers.
pub c_add_mismatch : (rs1 rs2 rd : ℤ) → rd ≢ rs1 → c_add rs1 rs2 (some rd) ≡ err value_error
unfolding c_add
c_add_mismatch (pos m) rs2 (pos n) ne = ground (arith, λ (e : n ≡ m). ne (ap pos e))
c_add_mismatch (pos m) rs2 (negsuc n) ne = ground arith
c_add_mismatch (negsuc m) rs2 (pos n) ne = ground arith
c_add_mismatch (negsuc m) rs2 (negsuc n) ne = ground (arith, λ (e : n ≡ m). ne (ap negsuc e))

spn_error : (r : ℤ) → (r ≤ℤ pos 7) ⊎ (pos 16 ≤ℤ r) → spn r ≡ err value_error
unfolding spn
spn_error (pos n) h = ground arith
spn_error (negsuc n) h = ground arith

-- Each helper of the short registers raises a ValueError if its first register is not one of
-- x8 .. x15, whatever its other arguments.
pub short_register_error :
    (r x y : ℤ)
    → (r ≤ℤ pos 7) ⊎ (pos 16 ≤ℤ r)
    → (c_addi4spn r x ≡ err value_error)
      × (c_srli r x ≡ err value_error)
      × (c_srai r x ≡ err value_error)
      × (c_andi r x ≡ err value_error)
      × (c_sub r x ≡ err value_error)
      × (c_xor r x ≡ err value_error)
      × (c_or r x ≡ err value_error)
      × (c_and r x ≡ err value_error)
      × (c_beqz r x ≡ err value_error)
      × (c_bnez r x ≡ err value_error)
      × (c_lw r x y ≡ err value_error)
      × (c_sw r x y ≡ err value_error)
unfolding c_addi4spn c_srli c_srai c_shift c_andi c_sub c_xor c_or c_and c_alu c_beqz c_bnez c_lw
    c_sw
short_register_error r x y h =
    let e = spn_error r h in
    (rw e, rw e, rw e, rw e, rw e, rw e, rw e, rw e, rw e, rw e, rw e, rw e)
