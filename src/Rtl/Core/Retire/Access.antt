-- ===== src/Rtl/Core/Retire/Access.antt =====
-- rtl/core/rv32i_core.sv: an instruction that accesses a CSR, from the word that waits to the next one.
use riscv_vibecoded.Rtl.Pkg.{CsrOp, csr_rw, csr_rs, csr_rc}
use riscv_vibecoded.Rtl.Regfile
use riscv_vibecoded.Rtl.CsrFile
use riscv_vibecoded.Rtl.CsrFile.{Csrs, Ports, csr_rdata, write}
use riscv_vibecoded.Rtl.CsrFile.Traps.{OnlyFields}
use riscv_vibecoded.Rtl.CsrFile.Access.{is_writable, kept, csr_rdata-write}
use riscv_vibecoded.Rtl.Decoder.Outputs.{Bundle}
use riscv_vibecoded.Rtl.Decoder.Classes.{IsSound, decoder-IsSound}
use riscv_vibecoded.Rtl.Decoder.Action.{csr, target, bundle_action}
use riscv_vibecoded.Rtl.Core.State.{Core}
use riscv_vibecoded.Rtl.Core.Wires.{
  accepted_word, csr_operand, csr_write_en, csr_update, is_rw, branch_taken, seq_pc,
}
use riscv_vibecoded.Rtl.Core.Trap.{trap_pending}
use riscv_vibecoded.Rtl.Core.Clock.{is_memory}
use riscv_vibecoded.Rtl.Core.Stages.{tick}
use riscv_vibecoded.Rtl.Core.Retire.{
  cycles, ready, operands, next_pc, register_write, register_value, csr_retire, waited, Retired,
}
use riscv_vibecoded.Rtl.Core.Retire.Run.{waiting, executing, ready-Retired}
use riscv_vibecoded.Rtl.Core.Retire.Traps.{plain_latency, waited_plain}
use riscv_vibecoded.Isa.Fields.{slice}
use riscv_vibecoded.Prelude.{
  ℕ, ◌+◌, ◌-◌, ◌%◌, ◌^◌, bit_and, bit_or, Bool, true, false, not, ◌==◌, ◌&&◌, ◌||◌, if◌then◌else◌,
  ◌≡◌, refl, ap, ◌∙◌, subst, arith,
}

csr_flags :
    (d : Bundle) (o : CsrOp) (immediate : Bool) (addr rs1 rd : ℕ)
    → IsSound d
    → bundle_action d ≡ csr o immediate addr rs1 rd
    → (d.csr_op ≡ o)
      × (d.csr_imm ≡ immediate)
      × (d.csr_addr ≡ addr)
      × (d.rs1_addr ≡ rs1)
      × (target d ≡ rd)
      × (d.is_csr ≡ true)
      × ((is_memory d || d.is_mret || d.is_branch || d.is_jal || d.is_jalr) ≡ false)
unfolding bundle_action
csr_flags d o immediate addr rs1 rd sound h = (
  ground arith,
  ground arith,
  ground arith,
  ground arith,
  ground arith,
  ground arith,
  ground arith,
)

-- The operand of an access: the field of the immediate forms, or a register.
abbrev pub operand_of : (immediate : Bool) (word rs1 : ℕ) → (ℕ → ℕ) → ℕ
operand_of immediate word rs1 regs = if immediate then slice 19 15 word else Regfile.read regs rs1

-- What the instruction set says of an access: csrrw and csrrwi always write, the others where their
-- operand is not 0.
abbrev pub writes : CsrOp → ℕ → Bool
writes csr_rw operand = true
writes csr_rs operand = not (operand == 0)
writes csr_rc operand = not (operand == 0)

-- The new value: the operand itself, the old value with the operand's bits set, or with them cleared.
abbrev pub new_value : CsrOp → (operand old : ℕ) → ℕ
new_value csr_rw operand old = operand
new_value csr_rs operand old = bit_or old operand
new_value csr_rc operand old = bit_and old (2 ^ 32 - 1 - operand)

writes_lem : (o : CsrOp) (operand : ℕ) → (is_rw o || not (operand == 0)) ≡ writes o operand
writes_lem csr_rw operand = refl
writes_lem csr_rs operand = refl
writes_lem csr_rc operand = refl

csr_update-new_value :
    (o : CsrOp) (operand old : ℕ) → csr_update o operand old ≡ new_value o operand old
csr_update-new_value csr_rw operand old = refl
csr_update-new_value csr_rs operand old = refl
csr_update-new_value csr_rc operand old = refl

-- The CSRs three cycles on.
abbrev pub three_on : Csrs → Csrs
three_on c = tick (tick (tick c))

-- A read of the CSR at a after an access, where c are the CSRs that it read.
abbrev pub read_after : CsrOp → (addr operand : ℕ) → Csrs → ℕ → ℕ
read_after o addr operand c a =
    if writes o operand && is_writable addr && a == addr
    then kept a (new_value o operand (csr_rdata addr c))
    else csr_rdata a (tick c)

-- From an access that waits in s to the next word in t.
pub record Accessed (o : CsrOp) (addr rd operand : ℕ) (s t : Core) : Type 0 where
  pub waits : ready t ≡ true
  pub next : t.fetch.word_pc ≡ (s.fetch.word_pc + (if (waiting s).is_c then 2 else 4)) % 2 ^ 32
  pub reads :
      (r : ℕ)
      → t.regs r ≡ (if not (rd == 0) && r == rd then csr_rdata addr (three_on s.csrs) else s.regs r)
  pub written : (a : ℕ) → csr_rdata a t.csrs ≡ read_after o addr operand (three_on s.csrs) a

-- The CSR file in the last cycle.
plain_clock :
    (p : Ports) (c : Csrs)
    → p.trap_enter ≡ false
    → p.mret ≡ false
    → CsrFile.clock p c ≡ (if p.csr_we then write p (tick c) else tick c)
unfolding CsrFile.clock
plain_clock p c no_trap no_mret = rw (no_trap, no_mret) refl

csr_read :
    (p : Ports) (c : Csrs) (b : Bool) (a : ℕ)
    → OnlyFields c.mstatus
    → csr_rdata a (if b then write p c else c) ≡ (
        if b && is_writable p.csr_addr && a == p.csr_addr
        then kept a p.csr_wdata
        else csr_rdata a c)
csr_read p c true a fields = csr_rdata-write p c a fields
csr_read p c false a fields = refl

written_csrs :
    (d : Bundle) (x : Core) (a : ℕ)
    → trap_pending d x ≡ false
    → d.is_mret ≡ false
    → d.is_csr ≡ true
    → is_memory d ≡ false
    → OnlyFields x.csrs.mstatus
    → csr_rdata a (CsrFile.clock (csr_retire d x) (waited d x))
      ≡ read_after d.csr_op d.csr_addr (csr_operand d x) (tick x.csrs) a
unfolding csr_retire csr_write_en
written_csrs d x a quiet no_mret is_csr no_memory fields =
    let p = csr_retire d x in
    let w : waited d x ≡ tick x.csrs = waited_plain d x no_memory in
    let we : p.csr_we ≡ writes d.csr_op (csr_operand d x) =
      ground (arith, writes_lem d.csr_op (csr_operand d x)) in
    ap (csr_rdata a) (plain_clock p (waited d x) quiet no_mret)
    ∙ csr_read p (tick (waited d x)) p.csr_we a (rw w fields)
    ∙ rw
        (
          w,
          we,
          csr_update-new_value d.csr_op (csr_operand d x) (csr_rdata d.csr_addr (tick x.csrs)),
        )
        refl

falls_through :
    (d : Bundle) (x : Core)
    → (is_memory d || d.is_mret || d.is_branch || d.is_jal || d.is_jalr) ≡ false
    → trap_pending d x ≡ false
    → next_pc d x ≡ seq_pc d x
unfolding next_pc branch_taken
falls_through d x plain quiet = ground arith

csr_value :
    (memory : ℕ → ℕ) (d : Bundle) (x : Core) (r rd : ℕ)
    → d.is_csr ≡ true
    → target d ≡ rd
    → trap_pending d x ≡ false
    → Regfile.clock (register_write memory d x) x.regs r
      ≡ (if not (rd == 0) && r == rd then csr_rdata d.csr_addr (tick x.csrs) else x.regs r)
unfolding Regfile.clock register_write register_value
csr_value memory d x r rd is_csr to quiet = rw (quiet, is_csr) (ground arith)

-- Where a word waits whose control bundle accesses a CSR and which does not trap, the memory answers in
-- the cycle of the request, and mstatus has MIE, MPIE and MPP only: after four cycles the word after it
-- waits, its register has what the CSR holds three cycles on and every other register is as before, and
-- a read of any CSR gives the new value of the instruction set at the address, if the access writes and
-- the CSR can be written, or else what it held, with the cycles counted. Of the new value mstatus keeps
-- MIE, MPIE and MPP, so that MPP can be written.
pub csr_accesses :
    (memory : ℕ → ℕ) (s : Core) (o : CsrOp) (immediate : Bool) (addr rs1 rd : ℕ)
    → ready s ≡ true
    → bundle_action (waiting s) ≡ csr o immediate addr rs1 rd
    → trap_pending (waiting s) (executing s) ≡ false
    → OnlyFields s.csrs.mstatus
    → Accessed o addr rd (operand_of immediate (accepted_word s) rs1 s.regs) s (cycles memory 4 s)
unfolding operands seq_pc csr_operand
csr_accesses memory s o immediate addr rs1 rd waits act quiet fields =
    let d = waiting s in
    let x = executing s in
    let (is_o, is_imm, is_addr, is_rs1, to, is_csr, plain) =
      csr_flags d o immediate addr rs1 rd (decoder-IsSound (accepted_word s)) act in
    let no_memory : is_memory d ≡ false = ground arith in
    let no_mret : d.is_mret ≡ false = ground arith in
    let retired : Retired memory d x (cycles memory 4 s) =
      subst (λ (k : ℕ). Retired memory d x (cycles memory k s)) (plain_latency s no_memory)
        (ready-Retired memory s waits) in
    let operand : csr_operand d x ≡ operand_of immediate (accepted_word s) rs1 s.regs =
      rw (is_imm, is_rs1) refl in
    record {
      waits = retired.waits;
      next = retired.next ∙ falls_through d x plain quiet;
      reads = λ r.
          retired.written r
          ∙ csr_value memory d x r rd is_csr to quiet
          ∙ ap
              (λ (k : ℕ).
                if not (rd == 0) && r == rd then csr_rdata k (three_on s.csrs) else s.regs r)
              is_addr;
      written = λ a.
          ap (λ (c : Csrs). csr_rdata a c) retired.csrs
          ∙ written_csrs d x a quiet no_mret is_csr no_memory fields
          ∙ ap (λ (k : CsrOp). read_after k d.csr_addr (csr_operand d x) (three_on s.csrs) a) is_o
          ∙ ap (λ (k : ℕ). read_after o k (csr_operand d x) (three_on s.csrs) a) is_addr
          ∙ ap (λ (k : ℕ). read_after o addr k (three_on s.csrs) a) operand;
    }
