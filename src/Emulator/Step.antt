-- ===== src/Emulator/Step.antt =====
-- tools/gen_expected.py, one round of the loop in `emulate`.
pub mod Rows
use riscv_vibecoded.Emulator.{
  Kind, lui, addi, cli, cadd, csub, cslli, csrli, csrai, candi, cmv, cbeqz, cbnez, cswsp, clwsp,
  clw, csw, caddi, cxor, cor, cand, cjal, cjr, other, Retire, State,
}
use riscv_vibecoded.Emulator.Alu.{m32, shift_left, shift_right, sign_filled, arith_op, Op}
use riscv_vibecoded.Py.Int.{ℤ, pos, negsuc, ◌+ℤ◌, ◌-ℤ◌, ◌&ℤ◌, ◌>>ℤ◌, ltb_ℤ, eqb_ℤ}
use riscv_vibecoded.Py.Error.{Result, ok, err, value_error, ◌>>=◌}
use riscv_vibecoded.Py.Equality.{int_eq}
use riscv_vibecoded.Py.Dict.{at, put}
use riscv_vibecoded.Py.Seq.{item, set_item}
use riscv_vibecoded.Prelude.{List, Bool, true, false, not, if◌then◌else◌}

-- The variables of a round before its `if` chain; `pcw` is written by every branch.
unfoldable pub blank : ℤ → ℤ → ℤ → Retire
blank w pc pcw = record {
  w = w;
  pc = pc;
  pcw = pcw;
  r1a = pos 0;
  r1d = pos 0;
  r2a = pos 0;
  r2d = pos 0;
  rda = pos 0;
  rdw = pos 0;
  ma = pos 0;
  rm = pos 0;
  wm = pos 0;
  mrd = pos 0;
  mwd = pos 0;
}

module _ (w : ℤ) (a : List ℤ) (s : State) where
  -- The next instruction 2 and 4 bytes on.
  abbrev next2 : Retire
  next2 = blank w s.pc (s.pc +ℤ pos 2)

  abbrev next4 : Retire
  next4 = blank w s.pc (s.pc +ℤ pos 4)

  -- r1a = rda = a_[0], and rdw a function of regs[r1a] and a_[1].
  unfoldable pub one_register : (ℤ → ℤ → Result ℤ) → Result Retire
  one_register f = do
    r ← item a (pos 0)
    x ← item s.regs r
    y ← item a (pos 1)
    v ← f x y
    ok (record next2 { r1a = r; r1d = x; rda = r; rdw = v })

  -- r1a = rda = a_[0] and r2a = a_[1], and rdw a function of both registers.
  unfoldable pub two_registers : (ℤ → ℤ → Result ℤ) → Result Retire
  two_registers f = do
    r1 ← item a (pos 0)
    r2 ← item a (pos 1)
    x ← item s.regs r1
    y ← item s.regs r2
    v ← f x y
    ok (record next2 { r1a = r1; r1d = x; r2a = r2; r2d = y; rda = r1; rdw = v })

  -- The offset is read only if the branch is taken.
  unfoldable pub branch_pcw : Bool → Result ℤ
  branch_pcw true = do offset ← item a (pos 1); ok (s.pc +ℤ offset)
  branch_pcw false = ok (s.pc +ℤ pos 2)

  unfoldable pub branch_on : (ℤ → Bool) → Result Retire
  unfolding branch_pcw
  branch_on taken = do
    r ← item a (pos 0)
    x ← item s.regs r
    target ← branch_pcw (taken x)
    ok (record (blank w s.pc target) { r1a = r; r1d = x })

  -- Store register r2 at regs[r1] + offset, rounded down to a multiple of 4.
  unfoldable pub store_word : ℤ → ℤ → ℤ → Result Retire
  store_word r1 r2 offset = do
    x ← item s.regs r1
    y ← item s.regs r2
    let address = (x +ℤ offset) &ℤ negsuc 3
    ok (record next2 { r1a = r1; r1d = x; r2a = r2; r2d = y; ma = address; wm = pos 0xF; mwd = y })

  -- Load register rd from there.
  unfoldable pub load_word : ℤ → ℤ → ℤ → Result Retire
  load_word r1 rd offset = do
    x ← item s.regs r1
    let address = (x +ℤ offset) &ℤ negsuc 3
    v ← at address s.mem
    ok (record next2 { r1a = r1; r1d = x; rda = rd; rdw = v; ma = address; rm = pos 0xF; mrd = v })

-- The `if` chain over the kinds.
unfoldable pub dispatch : Kind → ℤ → List ℤ → State → Result Retire
unfolding one_register two_registers branch_on store_word load_word
dispatch lui w a s = do
  rd ← item a (pos 0)
  v ← item a (pos 1)
  let field = (w >>ℤ 15) &ℤ pos 0x1F
  x ← item s.regs field
  ok (record (next4 w a s) { r1a = field; r1d = x; rda = rd; rdw = v })
dispatch addi w a s = do
  r ← item a (pos 1)
  x ← item s.regs r
  rd ← item a (pos 0)
  y ← item a (pos 2)
  ok (record (next4 w a s) { r1a = r; r1d = x; rda = rd; rdw = m32 (x +ℤ y) })
dispatch cli w a s = do
  rd ← item a (pos 0)
  y ← item a (pos 1)
  ok (record (next2 w a s) { rda = rd; rdw = m32 y })
dispatch cadd w a s = two_registers w a s (λ x y. ok (m32 (x +ℤ y)))
dispatch csub w a s = two_registers w a s (λ x y. ok (m32 (x -ℤ y)))
dispatch cslli w a s = one_register w a s (λ x y. do v ← shift_left x y; ok (m32 v))
dispatch csrli w a s = one_register w a s shift_right
dispatch csrai w a s =
    one_register w a s
      (λ x y. if ltb_ℤ x (pos 0x80000000) then shift_right x y else sign_filled x y)
dispatch candi w a s = one_register w a s (λ x y. ok (x &ℤ m32 y))
dispatch cmv w a s = do
  r ← item a (pos 1)
  y ← item s.regs r
  rd ← item a (pos 0)
  ok (record (next2 w a s) { r2a = r; r2d = y; rda = rd; rdw = y })
dispatch cbeqz w a s = branch_on w a s (λ x. eqb_ℤ x (pos 0))
dispatch cbnez w a s = branch_on w a s (λ x. not (eqb_ℤ x (pos 0)))
dispatch cswsp w a s = do
  r2 ← item a (pos 0)
  offset ← item a (pos 1)
  store_word w a s (pos 2) r2 offset
dispatch clwsp w a s = do
  rd ← item a (pos 0)
  offset ← item a (pos 1)
  load_word w a s (pos 2) rd offset
dispatch clw w a s = do
  r1 ← item a (pos 0)
  rd ← item a (pos 1)
  offset ← item a (pos 2)
  load_word w a s r1 rd offset
dispatch csw w a s = do
  r1 ← item a (pos 0)
  r2 ← item a (pos 1)
  offset ← item a (pos 2)
  store_word w a s r1 r2 offset
dispatch caddi w a s = one_register w a s (λ x y. ok (m32 (x +ℤ y)))
dispatch cxor w a s = two_registers w a s (arith_op Op.xor)
dispatch cor w a s = two_registers w a s (arith_op Op.or)
dispatch cand w a s = two_registers w a s (arith_op Op.and)
dispatch cjal w a s = do
  offset ← item a (pos 0)
  ok (record (blank w s.pc (s.pc +ℤ offset)) { rda = pos 1; rdw = s.pc +ℤ pos 2 })
dispatch cjr w a s = do
  r ← item a (pos 0)
  x ← item s.regs r
  ok (record (blank w s.pc (x &ℤ negsuc 1)) { r1a = r; r1d = x })
dispatch (other name) w a s = err value_error

-- `if rda: regs[rda] = rdw`
unfoldable pub write_register : Retire → List ℤ → Result (List ℤ)
write_register r regs = if eqb_ℤ r.rda (pos 0) then ok regs else set_item regs r.rda r.rdw

-- `if wm: mem[ma] = mwd`
unfoldable pub write_memory : Retire → List (ℤ × ℤ) → List (ℤ × ℤ)
write_memory r mem = if eqb_ℤ r.wm (pos 0) then mem else put r.ma r.mwd mem

-- What a round does after the `if` chain.
unfoldable pub commit : State → Retire → Result State
commit s r = do
  regs ← write_register r s.regs
  ok (record { regs = regs; mem = write_memory r s.mem; pc = r.pcw })
