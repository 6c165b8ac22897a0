-- ===== src/Rtl/Core/Effect/Stores.antt =====
-- A store in rtl/core/rv32i_core.sv with a memory that answers at once and writes the enabled bytes,
-- from the word that waits to the bytes of the memory.
use riscv_vibecoded.Isa.Insn.{store_to, decode, bytes}
use riscv_vibecoded.Rtl.Pkg.{alu_add}
use riscv_vibecoded.Rtl.Alu
use riscv_vibecoded.Rtl.Regfile
use riscv_vibecoded.Rtl.Lsu.RoundTrip.{byte, is_aligned}
use riscv_vibecoded.Rtl.Lsu.Bytes.{byte_at, in_access, write_enabled, byte_at-store}
use riscv_vibecoded.Rtl.Decoder.Outputs.{Bundle}
use riscv_vibecoded.Rtl.Decoder.Classes.{IsSound, decoder-IsSound}
use riscv_vibecoded.Rtl.Decoder.Action.{
  Operand, constant, store, illegal, read, operand_a, operand_b, insn_action, bundle_action,
  Performs,
}
use riscv_vibecoded.Rtl.Decoder.Base16.{decoder-Performs}
use riscv_vibecoded.Rtl.Decoder.Size.{decoder-bytes}
use riscv_vibecoded.Rtl.Core.State.{Core}
use riscv_vibecoded.Rtl.Core.Wires.{accepted_word, alu_result_comb, seq_pc, branch_taken}
use riscv_vibecoded.Rtl.Core.Trap.{trap_pending, trap_mem_mis}
use riscv_vibecoded.Rtl.Core.Outputs.{Request}
use riscv_vibecoded.Rtl.Core.Retire.{ready, operands, next_pc}
use riscv_vibecoded.Rtl.Core.Retire.Run.{waiting, executing, latency}
use riscv_vibecoded.Rtl.Core.Retire.Ram.{System, run}
use riscv_vibecoded.Rtl.Core.Retire.Instruction.{system_retires}
use riscv_vibecoded.Rtl.Core.Effect.{value_of, bytes_of}
use riscv_vibecoded.Rtl.Core.Effect.Wires.{alu_value, no_write}
use riscv_vibecoded.Prelude.{
  ℕ, ◌+◌, ◌-◌, ◌%◌, ◌^◌, ◌<◌, ◌≤◌, true, false, leb, ◌==◌, ◌||◌, if◌then◌else◌, some, ◌≡◌, refl,
  arith, ap, subst, ◌∙◌, inl, inr, Bool-cases,
}

store_flags :
    (d : Bundle) (funct3 rs2 : ℕ) (a b : Operand)
    → IsSound d
    → bundle_action d ≡ store funct3 alu_add a b rs2
    → (d.is_store ≡ true)
      × (d.lsu_funct3 ≡ funct3)
      × (d.alu_op ≡ alu_add)
      × (operand_a d d.alu_a_sel ≡ a)
      × (operand_b d d.alu_b_sel ≡ b)
      × (d.rs2_addr ≡ rs2)
      × ((d.is_mret || d.is_jal || d.is_jalr || d.is_branch || d.rd_we || d.is_load) ≡ false)
unfolding bundle_action
store_flags d funct3 rs2 a b sound h = (
  ground arith,
  ground arith,
  ground arith,
  ground arith,
  ground arith,
  ground arith,
  ground arith,
)

illegal_traps : (d : Bundle) (x : Core) → bundle_action d ≡ illegal → trap_pending d x ≡ false → ⊥
unfolding bundle_action trap_pending
illegal_traps d x h quiet = absurd (ground arith)

store-is_aligned :
    (d : Bundle) (x : Core)
    → d.is_store ≡ true
    → d.is_load ≡ false
    → d.lsu_funct3 ≤ 2
    → trap_pending d x ≡ false
    → is_aligned d.lsu_funct3 (alu_result_comb d x) ≡ true
unfolding trap_pending trap_mem_mis
store-is_aligned d x is_store no_load size quiet = ground arith

goes_on :
    (d : Bundle) (x : Core)
    → (d.is_mret || d.is_jal || d.is_jalr || d.is_branch || d.rd_we || d.is_load) ≡ false
    → trap_pending d x ≡ false
    → next_pc d x ≡ (x.pc_exe + bytes_of d) % 2 ^ 32
unfolding next_pc branch_taken seq_pc
goes_on d x plain quiet = ground arith

-- A memory of words that writes the enabled bytes.
abbrev pub ram_write : Request → (ℕ → ℕ) → ℕ → ℕ
ram_write r memory = write_enabled r.req_addr r.req_be r.req_wdata memory

-- The value of a register, 0 for x0.
abbrev pub value_in : Core → ℕ → ℕ
value_in c r = if r == 0 then 0 else c.regs r

read-value_in : (r pc : ℕ) (c : Core) → value_of (read r) pc c.regs ≡ value_in c r
unfolding value_of
read-value_in r pc c = ground arith

value_in-lt : (c : Core) (r : ℕ) → c.regs r < 2 ^ 32 → value_in c r < 2 ^ 32
value_in-lt c r h = ground arith

same_bytes :
    (f f' a a' v v' b old : ℕ)
    → f ≡ f'
    → a ≡ a'
    → v ≡ v'
    → (if in_access a f b then byte (b - a) v else old)
      ≡ (if in_access a' f' b then byte (b - a') v' else old)
same_bytes f f' a a' v v' b old ef ea ev = rw (ef, ea, ev) refl

-- From the store that waits in s to the next word in t, for n bytes of the instruction.
pub record Stores (funct3 rs1 rs2 imm n : ℕ) (s t : System) : Type 0 where
  pub waits : ready t.core ≡ true
  pub next : t.core.fetch.word_pc ≡ (s.core.fetch.word_pc + n) % 2 ^ 32
  pub registers : (r : ℕ) → t.core.regs r ≡ s.core.regs r
  pub changed :
      (b : ℕ)
      → byte_at t.memory b ≡ (
          if in_access ((value_in s.core rs1 + imm) % 2 ^ 32) funct3 b
          then byte (b - (value_in s.core rs1 + imm) % 2 ^ 32) (value_in s.core rs2)
          else byte_at s.memory b)

-- With a memory that answers in the cycle of the request and writes the enabled bytes: where the word
-- that waits stands for a store of 1, 2 or 4 bytes and does not trap, and the registers have 32-bit
-- words, then after the cycles of that word the next one waits, the registers are as before, the bytes
-- from the address, the sum of the base register and the immediate, have the low bytes of the source
-- register, and every other byte of the memory is as before.
pub store_executes :
    (s : System) (funct3 rs1 rs2 imm : ℕ)
    → ready s.core ≡ true
    → decode (accepted_word s.core) ≡ some (store_to funct3 rs1 rs2 imm)
    → trap_pending (waiting s.core) (executing s.core) ≡ false
    → ((r : ℕ) → s.core.regs r < 2 ^ 32)
    → Stores funct3 rs1 rs2 imm (bytes (accepted_word s.core)) s (run ram_write (latency s.core) s)
unfolding operands insn_action Alu.result
store_executes s funct3 rs1 rs2 imm waits decoded quiet words =
    let d = waiting s.core in
    let x = executing s.core in
    let sound = decoder-IsSound (accepted_word s.core) in
    let performs : bundle_action d ≡ insn_action (store_to funct3 rs1 rs2 imm) =
      subst (λ o. Performs o d) decoded (decoder-Performs (accepted_word s.core)) in
    elim (Bool-cases (leb funct3 2)) [
      | inr large ↦ absurd (illegal_traps d x (performs ∙ rw large refl) quiet)
      | inl size ↦
          let flags =
            store_flags d funct3 rs2 (read rs1) (constant imm) sound (performs ∙ rw size refl) in
          let (is_store, is_size, add, left, right, from, plain) = flags in
          let no_load : d.is_load ≡ false = ground (arith, plain) in
          let no_we : d.rd_we ≡ false = ground (arith, plain) in
          let base : value_of (read rs1) s.core.fetch.word_pc s.core.regs ≡ value_in s.core rs1 =
            read-value_in rs1 s.core.fetch.word_pc s.core in
          let target : alu_result_comb d x ≡ (value_in s.core rs1 + imm) % 2 ^ 32 =
            alu_value d s.core.regs x alu_add (read rs1) (constant imm)
              record { operand_1 = refl; operand_2 = refl } add left right
            ∙ unfold value_of in rw base refl in
          let source : x.rs2 ≡ value_in s.core rs2 =
            rw from (unfold Regfile.read in ground arith) in
          let aligned = store-is_aligned d x is_store no_load (rw is_size (ground arith)) quiet in
          let done = system_retires ram_write s waits in
          record {
            waits = done.effects.waits;
            next =
                done.effects.next
                ∙ goes_on d x plain quiet
                ∙ ap (λ (k : ℕ). (s.core.fetch.word_pc + k) % 2 ^ 32)
                    (decoder-bytes (accepted_word s.core));
            registers = λ r. done.effects.written r ∙ no_write _ d s.core.regs x r no_we;
            changed = λ b.
                ap (λ (m : ℕ → ℕ). byte_at m b) (done.stored is_store quiet)
                ∙ byte_at-store s.memory d.lsu_funct3 (alu_result_comb d x) x.rs2 b
                    (rw is_size (ground arith)) aligned (rw target (omega arith))
                    (rw source (value_in-lt s.core rs2 (words rs2)))
                ∙ same_bytes _ _ _ _ _ _ b (byte_at s.memory b) is_size target source;
          }
    ]
