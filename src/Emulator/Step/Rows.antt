-- ===== src/Emulator/Step/Rows.antt =====
-- What every row of the table holds, whatever the kind.
use riscv_vibecoded.Emulator.{
  Kind, lui, cbeqz, cbnez, cswsp, clw, csw, cjal, cjr, other, Retire, State,
}
use riscv_vibecoded.Emulator.Step.{dispatch, blank}
use riscv_vibecoded.Py.Int.{ℤ, pos}
use riscv_vibecoded.Py.Error.{Result, ok}
use riscv_vibecoded.Py.Equality.{int_eq}
use riscv_vibecoded.Py.Dict.{at}
use riscv_vibecoded.Py.Seq.{item}
use riscv_vibecoded.Prelude.{List, ◌≡◌, ◌⊎◌, arith}

-- The row names its instruction and its address, holds what the registers that it names hold, and
-- is either no load, or reads the word that memory holds.
pub record Reads (w : ℤ) (s : State) (r : Retire) : Type 0 where
  pub word : r.w ≡ w
  pub address : r.pc ≡ s.pc
  pub first : item s.regs r.r1a ≡ ok r.r1d
  pub second : item s.regs r.r2a ≡ ok r.r2d
  pub loaded : (r.rm ≡ pos 0) ⊎ (at r.ma s.mem ≡ ok r.mrd)

pub dispatch-pc :
    (k : Kind) (w : ℤ) (a : List ℤ) (s : State) {r : Retire}
    → dispatch k w a s ≡ ok r
    → (r.w ≡ w) × (r.pc ≡ s.pc)
unfolding dispatch blank
dispatch-pc lui w a s h = ground arith
dispatch-pc _ w a s h = ground arith

-- Where x0 holds 0, every row that a round gives is such a row.
pub dispatch-Reads :
    (k : Kind) (w : ℤ) (a : List ℤ) (s : State) {r : Retire}
    → item s.regs (pos 0) ≡ ok (pos 0)
    → dispatch k w a s ≡ ok r
    → Reads w s r
unfolding dispatch blank
dispatch-Reads lui w a s zero_reg h = ground arith
dispatch-Reads _ w a s zero_reg h = ground arith

-- The register that a kind writes; x0 for one that writes none.
unfoldable pub destination : Kind → List ℤ → Result ℤ
destination cbeqz a = ok (pos 0)
destination cbnez a = ok (pos 0)
destination cswsp a = ok (pos 0)
destination csw a = ok (pos 0)
destination cjr a = ok (pos 0)
destination cjal a = ok (pos 1)
destination clw a = item a (pos 1)
destination (other name) a = ok (pos 0)
destination _ a = item a (pos 0)

pub dispatch-rda :
    (k : Kind) (w : ℤ) (a : List ℤ) (s : State) {r : Retire}
    → dispatch k w a s ≡ ok r
    → destination k a ≡ ok r.rda
unfolding dispatch blank destination
dispatch-rda cbeqz w a s h = ground arith
dispatch-rda _ w a s h = ground arith
