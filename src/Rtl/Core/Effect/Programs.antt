-- ===== src/Rtl/Core/Effect/Programs.antt =====
-- A whole emulation of tools/gen_expected.py beside the core of rtl/core/rv32i_core.sv that runs the
-- words of the program from its memory.
use riscv_vibecoded.Emulator.{Entry, Retire, State}
use riscv_vibecoded.Emulator.Bounds.Rows.{dispatch-Bounded}
use riscv_vibecoded.Emulator.Bounds.Run.{WellFormed, commit-WellFormed}
use riscv_vibecoded.Emulator.Run.{pc_map, run, emulate}
use riscv_vibecoded.Emulator.Run.Reads.{EntriesAt}
use riscv_vibecoded.Emulator.Run.Trace.{step-eq-ok, run-suc}
use riscv_vibecoded.Emulator.Simulation.{round}
use riscv_vibecoded.Emulator.Simulation.Made.{Made}
use riscv_vibecoded.Emulator.Simulation.Machine.{MadeAt}
use riscv_vibecoded.Emulator.Step.{commit}
use riscv_vibecoded.Emulator.Step.Rows.{dispatch-rda}
use riscv_vibecoded.Emulator.Table.{pc_map-EntriesAt, nothing-EntriesAt}
use riscv_vibecoded.Isa.Fields.{slice, bit}
use riscv_vibecoded.Isa.Insn.{Insn, decode, bytes}
use riscv_vibecoded.Rtl.Decoder.Action.{insn_action, bundle_action, Performs}
use riscv_vibecoded.Rtl.Decoder.Base16.{decoder-Performs}
use riscv_vibecoded.Rtl.Decoder.Classes.{decoder-IsSound}
use riscv_vibecoded.Rtl.Core.State.{Core}
use riscv_vibecoded.Rtl.Core.Trap.{trap_pending}
use riscv_vibecoded.Rtl.Core.Wires.{accepted_word, fetch_word_sel}
use riscv_vibecoded.Rtl.Core.Retire.{cycles, ready, operands}
use riscv_vibecoded.Rtl.Core.Retire.Run.{waiting, executing, latency, ready-Retired, cycles_add}
use riscv_vibecoded.Rtl.Core.Effect.Quiet.{uses_registers, effect_exists, uses_registers-quiet}
use riscv_vibecoded.Rtl.Core.Effect.Registers.{Matches}
use riscv_vibecoded.Rtl.Core.Effect.Emulated.{round-cycles}
use riscv_vibecoded.Py.Int.{ℤ, pos, negsuc, pos_part}
use riscv_vibecoded.Py.Error.{Result, ok, ◌>>=◌}
use riscv_vibecoded.Prelude.{
  ℕ, zero, suc, ◌+◌, ◌*◌, ◌%◌, ◌^◌, ◌<◌, Bool, true, false, not, ◌==◌, ◌&&◌, if◌then◌else◌, Option,
  none, some, List, [], All, ◌≡◌, refl, sym, ap, ◌∙◌, subst, arith,
}

abbrev pub aligned : ℕ → ℕ
aligned pc = slice 31 2 pc * 2 ^ 2

-- The halfword at an address, or the word where it is aligned and begins a 32-bit instruction.
abbrev pub held : (ℕ → ℕ) → ℕ → ℕ
held memory pc =
    let word = memory (aligned pc) in
    let half = if bit 1 pc == 1 then slice 31 16 word else slice 15 0 word in
    if not (bit 1 pc == 1) && slice 1 0 half == 0b11 then word else half

-- An instruction that uses registers only and keeps the program counter even.
abbrev pub goes_on : Option Insn → Bool
goes_on none = false
goes_on (some i) = uses_registers (insn_action i)

-- The word of an entry is in memory, at an even address below 2^32 - 4, and is such an instruction.
abbrev pub InMemory : (ℕ → ℕ) → ℤ → Entry → Type 0
InMemory memory (pos pc) e =
    (pc % 2 ≡ 0)
    × (pc + 4 < 2 ^ 32)
    × (e.word ≡ pos (held memory pc))
    × (goes_on (decode (held memory pc)) ≡ true)
InMemory memory (negsuc n) e = Unit

-- The core waits with the word at the emulator's program counter, and has its registers.
pub record Follows (memory : ℕ → ℕ) (s : State) (c : Core) : Type 0 where
  pub waits : ready c ≡ true
  pub fetched : c.fetch.word ≡ memory (aligned c.fetch.word_pc)
  pub agrees : Matches s c.fetch.word_pc c.regs

accepted_word-held :
    (memory : ℕ → ℕ) (c : Core)
    → c.fetch.word ≡ memory (aligned c.fetch.word_pc)
    → accepted_word c ≡ held memory c.fetch.word_pc
unfolding accepted_word fetch_word_sel
accepted_word-held memory c h = rw h refl

decoded : (o : Option Insn) → goes_on o ≡ true → (i : Insn) × (o ≡ some i)
decoded none h = absurd (ground arith)
decoded (some i) h = (i, refl)

-- An instruction that goes on does not trap, and takes four cycles.
quiet :
    (c : Core) (i : Insn)
    → decode (accepted_word c) ≡ some i
    → uses_registers (insn_action i) ≡ true
    → c.fetch.word_pc % 2 ≡ 0
    → (trap_pending (waiting c) (executing c) ≡ false) × (latency c ≡ 4)
unfolding latency operands
quiet c i h k even =
    let performs : bundle_action (waiting c) ≡ insn_action i =
      subst (λ o. Performs o (waiting c)) h (decoder-Performs (accepted_word c)) in
    let (no_trap, no_memory) =
      uses_registers-quiet (waiting c) (executing c) (insn_action i)
        (decoder-IsSound (accepted_word c)) performs k even in
    (no_trap, rw no_memory refl)

bytes-lt : (w pc : ℕ) → pc + 4 < 2 ^ 32 → pc + bytes w < 2 ^ 32
unfolding bytes
bytes-lt w pc h = ground arith

-- A round of the emulator and four cycles of the core.
round-Follows :
    (memory : ℕ → ℕ) (s s' : State) (c : Core) (e : Entry)
    → Follows memory s c
    → WellFormed s
    → InMemory memory s.pc e
    → Made s.pc e.word e.kind e.args
    → round e.kind e.word e.args s ≡ ok s'
    → Follows memory s' (cycles memory 4 c)
round-Follows memory s s' c e f well placed made h =
    let pc = c.fetch.word_pc in
    let w = accepted_word c in
    let w_held : w ≡ held memory pc = accepted_word-held memory c f.fetched in
    let (even, below, word, goes) =
      subst (λ (t : ℤ). InMemory memory t e) f.agrees.counter placed in
    let word_eq : e.word ≡ pos w = word ∙ ap pos (sym w_held) in
    let goes_w : goes_on (decode w) ≡ true =
      subst (λ (t : ℕ). goes_on (decode t) ≡ true) (sym w_held) goes in
    let (i, is_i) = decoded (decode w) goes_w in
    let goes_i : uses_registers (insn_action i) ≡ true =
      subst (λ (o : Option Insn). goes_on o ≡ true) is_i goes_w in
    let (no_trap, four) = quiet c i is_i goes_i even in
    let (eff, is_eff) = effect_exists (insn_action i) pc (bytes w) c.regs goes_i in
    let (waits, agrees) =
      round-cycles memory c s s' e.kind e.args i eff f.waits is_i no_trap is_eff
        (bytes-lt w pc below) f.agrees well
        (subst (λ (t : ℤ). Made s.pc t e.kind e.args) word_eq made)
        (subst (λ (t : ℤ). round e.kind t e.args s ≡ ok s') word_eq h) in
    let retired = ready-Retired memory c f.waits in
    subst (λ (t : ℕ). Follows memory s' (cycles memory t c)) four
      record {
        waits = waits;
        fetched = retired.fetched ∙ ap (λ (t : ℕ). memory (aligned t)) (sym retired.next);
        agrees = agrees;
      }

abbrev pub RunsAt : (ℕ → ℕ) → ℤ → Entry → Type 0
RunsAt memory pc e = MadeAt pc e × InMemory memory pc e

run-Follows :
    (memory : ℕ → ℕ) (m : List (ℤ × Entry)) (n : ℕ) (s : State) (c : Core) {rows : List Retire}
    {last : State}
    → EntriesAt (RunsAt memory) m
    → WellFormed s
    → Follows memory s c
    → run m n s ≡ ok (rows, last)
    → Follows memory last (cycles memory (n * 4) c)
run-Follows memory m zero s c {rows} {last} entries well f h =
    unfold run cycles in subst (λ (t : State). Follows memory t c) (ground arith) f
run-Follows memory m (suc n) s c {rows} {last} entries well f h =
    let (r, s', rest, first, others, whole) = run-suc m n s h in
    let rnd = step-eq-ok m s r s' first in
    let e = rnd.entry in
    let ((((d, named, small), keeps), by_encoder), placed) = entries s.pc e rnd.found in
    let bounded =
      dispatch-Bounded e.kind e.word e.args s well.x0 well.regs well.mem keeps rnd.row in
    let at_register : ok r.rda ≡ ok (pos d) =
      sym (dispatch-rda e.kind e.word e.args s rnd.row) ∙ named in
    let after = commit-WellFormed s r s' rnd.kept bounded well d (ground arith) in
    let did : round e.kind e.word e.args s ≡ ok s' =
      ap (λ (t : Result Retire). t >>= commit s) rnd.row ∙ rnd.kept in
    let followed = round-Follows memory s s' c e f well placed by_encoder did in
    subst (λ (t : Core). Follows memory last t) (sym (cycles_suc n))
      (run-Follows memory m n s' (cycles memory 4 c) entries after followed others)
  where
    cycles_suc : (n : ℕ) → cycles memory (suc n * 4) c ≡ cycles memory (n * 4) (cycles memory 4 c)
    cycles_suc n = ap (λ (t : ℕ). cycles memory t c) (omega arith) ∙ cycles_add memory 4 (n * 4) c

-- A program whose entries are made with the encoders of the kinds that use no memory, csrai left out,
-- write x0 .. x31 and stay in 32 bits, and whose words are in the memory of the core, which answers in
-- the cycle of the request, at even addresses below 2^32 - 4, and use registers only and jump or branch
-- by even offsets: where the core waits with the first word, and the emulator starts at its address
-- with the same 32 registers and a memory of 32-bit words, a successful emulation of n instructions,
-- which goes by the kinds and arguments, ends with the program counter and the registers that the core
-- has after 4 * n cycles, in which it waits with the next word.
pub emulate-cycles :
    (memory : ℕ → ℕ) (c : Core) (prog : List Entry) (regs : List ℤ) (mem : List (ℤ × ℤ))
    (start_pc order0 max_retires : ℤ) (rows : List Retire) (last : State)
    → All (λ (e : Entry). RunsAt memory e.addr e) prog
    → WellFormed (record { regs = regs; mem = mem; pc = start_pc })
    → Follows memory (record { regs = regs; mem = mem; pc = start_pc }) c
    → emulate prog regs mem start_pc order0 max_retires ≡ ok (rows, last)
    → Follows memory last (cycles memory (pos_part max_retires * 4) c)
unfolding emulate
emulate-cycles memory c prog regs mem start_pc order0 max_retires rows last all well f h =
    run-Follows memory (pc_map [] prog) (pos_part max_retires)
      (record { regs = regs; mem = mem; pc = start_pc }) c
      (pc_map-EntriesAt (RunsAt memory) [] prog all (nothing-EntriesAt (RunsAt memory))) well f h
