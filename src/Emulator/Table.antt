-- ===== src/Emulator/Table.antt =====
-- tools/gen_expected.py, `emulate`: what the whole table says.
use riscv_vibecoded.Emulator.{Entry, Retire, State}
use riscv_vibecoded.Emulator.Run.{pc_map, emulate}
use riscv_vibecoded.Emulator.Run.Trace.{Chained, run-Chained}
use riscv_vibecoded.Emulator.Run.Reads.{
  Writes, EntriesAt, last_write, last_store, RowState, row_state,
}
use riscv_vibecoded.Py.Int.{ℤ, pos, pos_part, eqb_ℤ}
use riscv_vibecoded.Py.Error.{ok}
use riscv_vibecoded.Py.Equality.{int_eq, eqb_ℤ_iff}
use riscv_vibecoded.Py.Dict.{get, at, put, get-put, or_key_error}
use riscv_vibecoded.Py.Seq.{item}
use riscv_vibecoded.Prelude.{
  All, ℕ, true, false, some, List, [], ◌∷◌, ◌++◌, length, ◌≡◌, ◌≢◌, inl, inr, sym, ap, subst, ◌∙◌,
  Bool-cases, arith,
}

put-EntriesAt :
    (P : ℤ → Entry → Type 0) (e : Entry) (m : List (ℤ × Entry))
    → P e.addr e
    → EntriesAt P m
    → EntriesAt P (put e.addr e m)
unfolding at
put-EntriesAt P e m here there k e' found = elim (Bool-cases (eqb_ℤ e.addr k)) [
  | inl same ↦ subst (λ (t : ℤ). P t e') (place same) (subst (P e.addr) (new same) here)
  | inr other ↦ there k e' (old other)
]
  where
    place : eqb_ℤ e.addr k ≡ true → e.addr ≡ k
    place same = (eqb_ℤ_iff e.addr k).0 same

    new : eqb_ℤ e.addr k ≡ true → e ≡ e'
    new same = ground (arith, get-put e.addr k e m)

    old : eqb_ℤ e.addr k ≡ false → or_key_error (get k m) ≡ ok e'
    old other = ground (arith, get-put e.addr k e m)

-- What holds of every entry of a program at its address holds of what its map finds.
pub pc_map-EntriesAt :
    (P : ℤ → Entry → Type 0) (m : List (ℤ × Entry)) (prog : List Entry)
    → All (λ (e : Entry). P e.addr e) prog
    → EntriesAt P m
    → EntriesAt P (pc_map m prog)
unfolding pc_map
pc_map-EntriesAt P m [] all h = h
pc_map-EntriesAt P m (e ∷ prog) all h =
    pc_map-EntriesAt P (put e.addr e m) prog all.1 (put-EntriesAt P e m all.0 h)

pub nothing-EntriesAt : (P : ℤ → Entry → Type 0) → EntriesAt P []
nothing-EntriesAt P k e found = absurd (unfold at get in ground arith)

-- If the emulation succeeds, its rows begin at `start_pc`, each begins where the one before it
-- leads, the last leads to the program counter in the end, and there are `max_retires` of them
-- (none if that is negative).
pub emulate-Chained :
    (prog : List Entry) (regs : List ℤ) (mem : List (ℤ × ℤ)) (start_pc order0 max_retires : ℤ)
    (rows : List Retire) (last : State)
    → emulate prog regs mem start_pc order0 max_retires ≡ ok (rows, last)
    → Chained start_pc rows last.pc × (length rows ≡ pos_part max_retires)
unfolding emulate
emulate-Chained prog regs mem start_pc order0 max_retires rows last h =
    run-Chained (pc_map [] prog) (pos_part max_retires)
      (record { regs = regs; mem = mem; pc = start_pc }) h

module _ (prog : List Entry) (regs : List ℤ) (mem : List (ℤ × ℤ)) (start_pc order0 max_retires : ℤ)
    (named : All Writes prog) (x0 : item regs (pos 0) ≡ ok (pos 0)) (before : List Retire)
    (r : Retire) (after : List Retire) (last : State)
    (success : emulate prog regs mem start_pc order0 max_retires
      ≡ ok (before ++ r ∷ after, last)) where
  begin : State
  begin = record { regs = regs; mem = mem; pc = start_pc }

  row : RowState begin before r
  unfolding begin
  row =
      row_state (pc_map [] prog)
        (pc_map-EntriesAt (λ (k : ℤ). Writes) [] prog named (nothing-EntriesAt (λ (k : ℤ). Writes)))
        before (pos_part max_retires) begin r after last x0 (unfold emulate in success)

  ok-injective : {a b : ℤ} → ok a ≡ ok b → a ≡ b
  ok-injective e = ground arith

  module _ (x : ℕ) (v : ℤ) (initial : item regs (pos x) ≡ ok v) where
    register : (a d : ℤ) → item row.begin.regs a ≡ ok d → a ≡ pos x → d ≡ last_write x v before
    unfolding begin
    register a d held named_by =
        ok-injective (sym held ∙ ap (item row.begin.regs) named_by ∙ row.regs x v initial)

    -- In a successful emulation of entries with destinations x0 .. x31 that starts with 0 in x0,
    -- the rs1 value of a row is what the rows before it wrote last to that register, or its initial
    -- value; writes to x0 do not count.
    pub emulate_reads_rs1 : r.r1a ≡ pos x → r.r1d ≡ last_write x v before
    emulate_reads_rs1 = register r.r1a r.r1d row.reads.first

    -- The same holds of the rs2 value of a row, under the same conditions.
    pub emulate_reads_rs2 : r.r2a ≡ pos x → r.r2d ≡ last_write x v before
    emulate_reads_rs2 = register r.r2a r.r2d row.reads.second

  -- In a successful emulation of entries with destinations x0 .. x31 that starts with 0 in x0, a
  -- row that reads memory reads the word that the rows before it stored last at that address, or
  -- else the initial one, and there is one.
  pub emulate_reads_memory : r.rm ≢ pos 0 → last_store r.ma (get r.ma mem) before ≡ some r.mrd
  unfolding begin
  emulate_reads_memory reading = elim row.reads.loaded [
    | inl none_read ↦ absurd (reading none_read)
    | inr held ↦ sym (row.mem r.ma) ∙ get-at r.ma row.begin.mem r.mrd held
  ]
    where
      get-at : (k : ℤ) (m : List (ℤ × ℤ)) (v : ℤ) → at k m ≡ ok v → get k m ≡ some v
      get-at k m v h = unfold at in ground arith
