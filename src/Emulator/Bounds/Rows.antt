-- ===== src/Emulator/Bounds/Rows.antt =====
-- tools/gen_expected.py: the values of one row.
use riscv_vibecoded.Emulator.{
  Kind, lui, addi, cli, cadd, csub, cslli, csrli, csrai, candi, cmv, clwsp, clw, caddi, cxor, cor,
  cand, cjal, Retire, State,
}
use riscv_vibecoded.Emulator.Alu.{m32, shift_left, shift_right, arith_op}
use riscv_vibecoded.Emulator.Step.{
  dispatch, blank, one_register, two_registers, branch_on, store_word, load_word,
}
use riscv_vibecoded.Emulator.Step.Rows.{dispatch-Reads}
use riscv_vibecoded.Emulator.Bounds.Words.{
  IsWord, m32-IsWord, and-IsWord, or-IsWord, xor-IsWord, shift_right-IsWord,
}
use riscv_vibecoded.Py.Int.{ℤ, pos, ◌+ℤ◌, ◌-ℤ◌, ◌&ℤ◌, ◌|ℤ◌, ◌^ℤ◌}
use riscv_vibecoded.Py.Error.{Result, ok, ◌>>=◌, >>=-eq-ok}
use riscv_vibecoded.Py.Equality.{int_eq}
use riscv_vibecoded.Py.Dict.{at}
use riscv_vibecoded.Py.Seq.{item}
use riscv_vibecoded.Prelude.{List, ◌≡◌, ◌⊎◌, inl, inr, arith}

-- The values that a row reads and writes.
pub record Bounded (r : Retire) : Type 0 where
  pub r1d : IsWord r.r1d
  pub r2d : IsWord r.r2d
  pub rdw : IsWord r.rdw
  pub mrd : IsWord r.mrd
  pub mwd : IsWord r.mwd

-- What an entry's kind asks for: a lui holds the 32-bit value that it loads, the link of a cjal is a
-- 32-bit address, and the entry is no csrai.
unfoldable pub Keeps : Kind → List ℤ → ℤ → Type 0
Keeps lui a pc = (v : ℤ) → item a (pos 1) ≡ ok v → IsWord v
Keeps csrai a pc = ⊥
Keeps cjal a pc = IsWord (pc +ℤ pos 2)
Keeps _ a pc = Unit

-- The written value, from the values that are read.
unfoldable produced : Kind → List ℤ → ℤ → ℤ → ℤ → ℤ → Result ℤ
produced lui a pc x y m = item a (pos 1)
produced addi a pc x y m = do z ← item a (pos 2); ok (m32 (x +ℤ z))
produced cli a pc x y m = do z ← item a (pos 1); ok (m32 z)
produced cadd a pc x y m = ok (m32 (x +ℤ y))
produced csub a pc x y m = ok (m32 (x -ℤ y))
produced cslli a pc x y m = do z ← item a (pos 1); v ← shift_left x z; ok (m32 v)
produced csrli a pc x y m = do z ← item a (pos 1); shift_right x z
produced candi a pc x y m = do z ← item a (pos 1); ok (x &ℤ m32 z)
produced cmv a pc x y m = ok y
produced clwsp a pc x y m = ok m
produced clw a pc x y m = ok m
produced caddi a pc x y m = do z ← item a (pos 1); ok (m32 (x +ℤ z))
produced cxor a pc x y m = ok (x ^ℤ y)
produced cor a pc x y m = ok (x |ℤ y)
produced cand a pc x y m = ok (x &ℤ y)
produced cjal a pc x y m = ok (pc +ℤ pos 2)
produced _ a pc x y m = ok (pos 0)

dispatch-produced :
    (k : Kind) (w : ℤ) (a : List ℤ) (s : State) {r : Retire}
    → Keeps k a s.pc
    → dispatch k w a s ≡ ok r
    → produced k a s.pc r.r1d r.r2d r.mrd ≡ ok r.rdw
unfolding dispatch blank produced one_register two_registers branch_on store_word load_word arith_op
    Keeps
dispatch-produced csrai w a s keeps h = absurd keeps
dispatch-produced lui w a s keeps h = ground arith
dispatch-produced _ w a s keeps h = ground arith

-- A row that loads nothing holds 0 for the loaded word, and a stored word is that of the second register.
dispatch-memory :
    (k : Kind) (w : ℤ) (a : List ℤ) (s : State) {r : Retire}
    → dispatch k w a s ≡ ok r
    → ((r.mrd ≡ pos 0) ⊎ (at r.ma s.mem ≡ ok r.mrd)) × ((r.mwd ≡ pos 0) ⊎ (r.mwd ≡ r.r2d))
unfolding dispatch blank
dispatch-memory lui w a s h = ground arith
dispatch-memory _ w a s h = ground arith

produced-IsWord :
    (k : Kind) (a : List ℤ) (pc x y m v : ℤ)
    → Keeps k a pc
    → IsWord x
    → IsWord y
    → IsWord m
    → produced k a pc x y m ≡ ok v
    → IsWord v
unfolding produced Keeps
produced-IsWord lui a pc x y m v keeps hx hy hm h = keeps v h
produced-IsWord csrli a pc x y m v keeps hx hy hm h =
    let (z, e, h1) = >>=-eq-ok (item a (pos 1)) _ h in shift_right-IsWord x z v hx h1
produced-IsWord candi a pc x y m v keeps hx hy hm h =
    let (z, e, h1) = >>=-eq-ok (item a (pos 1)) _ h in
    ground (arith, and-IsWord x (m32 z) hx (m32-IsWord z))
produced-IsWord cslli a pc x y m v keeps hx hy hm h =
    let (z, e, h1) = >>=-eq-ok (item a (pos 1)) _ h in
    let (u, e1, h2) = >>=-eq-ok (shift_left x z) _ h1 in ground (arith, m32-IsWord u)
produced-IsWord addi a pc x y m v keeps hx hy hm h =
    let (z, e, h1) = >>=-eq-ok (item a (pos 2)) _ h in ground (arith, m32-IsWord (x +ℤ z))
produced-IsWord caddi a pc x y m v keeps hx hy hm h =
    let (z, e, h1) = >>=-eq-ok (item a (pos 1)) _ h in ground (arith, m32-IsWord (x +ℤ z))
produced-IsWord cli a pc x y m v keeps hx hy hm h =
    let (z, e, h1) = >>=-eq-ok (item a (pos 1)) _ h in ground (arith, m32-IsWord z)
produced-IsWord cadd a pc x y m v keeps hx hy hm h = ground (arith, m32-IsWord (x +ℤ y))
produced-IsWord csub a pc x y m v keeps hx hy hm h = ground (arith, m32-IsWord (x -ℤ y))
produced-IsWord cxor a pc x y m v keeps hx hy hm h = ground (arith, xor-IsWord x y hx hy)
produced-IsWord cor a pc x y m v keeps hx hy hm h = ground (arith, or-IsWord x y hx hy)
produced-IsWord cand a pc x y m v keeps hx hy hm h = ground (arith, and-IsWord x y hx hy)
produced-IsWord cjal a pc x y m v keeps hx hy hm h = ground arith
produced-IsWord csrai a pc x y m v keeps hx hy hm h = absurd keeps
produced-IsWord _ a pc x y m v keeps hx hy hm h = ground arith

-- A row of a state whose registers and memory hold 32-bit words, the first register 0.
pub dispatch-Bounded :
    (k : Kind) (w : ℤ) (a : List ℤ) (s : State) {r : Retire}
    → item s.regs (pos 0) ≡ ok (pos 0)
    → ((i v : ℤ) → item s.regs i ≡ ok v → IsWord v)
    → ((p v : ℤ) → at p s.mem ≡ ok v → IsWord v)
    → Keeps k a s.pc
    → dispatch k w a s ≡ ok r
    → Bounded r
dispatch-Bounded k w a s {r} x0 regs mem keeps h =
    let reads = dispatch-Reads k w a s x0 h in
    let hx = regs r.r1a r.r1d reads.first in
    let hy = regs r.r2a r.r2d reads.second in
    let (loaded, stored) = dispatch-memory k w a s h in
    let hm : IsWord r.mrd = elim loaded [ inl e ↦ ground arith | inr e ↦ mem r.ma r.mrd e ] in
    let hs : IsWord r.mwd = elim stored [ inl e ↦ ground arith | inr e ↦ ground (arith, hy) ] in
    record {
      r1d = hx;
      r2d = hy;
      rdw =
          produced-IsWord k a s.pc r.r1d r.r2d r.mrd r.rdw keeps hx hy hm
            (dispatch-produced k w a s keeps h);
      mrd = hm;
      mwd = hs;
    }
