-- ===== src/Rtl/Core/Retire/Phases.antt =====
-- rtl/core/rv32i_core.sv: PH_EX, PH_MEM and PH_WB of an instruction, by where its successor is
-- fetched.
use riscv_vibecoded.Rtl.Core.Retire.{
  answer, cycle, cycles, next_pc, accessed, register_value, Retired,
}
use riscv_vibecoded.Rtl.Core.Retire.WriteBack.{
  same_write, same_csrs, wb_retires_requested, wb_retires_pending,
}
use riscv_vibecoded.Rtl.Pkg.{ph_ex, ph_mem, ph_wb, f_idle, f_req}
use riscv_vibecoded.Rtl.Fetch
use riscv_vibecoded.Rtl.Lsu
use riscv_vibecoded.Rtl.Fetch.{requesting}
use riscv_vibecoded.Rtl.Decoder.{decoder}
use riscv_vibecoded.Rtl.Decoder.Outputs.{Bundle}
use riscv_vibecoded.Rtl.Decoder.Classes.{IsSound, memory_only, memory_not_csr, load_only}
use riscv_vibecoded.Rtl.Core.Schedule.{memory_redirect}
use riscv_vibecoded.Rtl.Core.State.{Core}
use riscv_vibecoded.Rtl.Core.Wires.{alu_result_comb, seq_pc, branch_taken, rd_wdata, lsu}
use riscv_vibecoded.Rtl.Core.Trap.{fetch_redirect, redirect_target, trap_pending}
use riscv_vibecoded.Rtl.Core.Clock.{clock, edge, is_memory}
use riscv_vibecoded.Rtl.Core.Outputs.{request}
use riscv_vibecoded.Rtl.Core.Stages.{
  tick, ex_results, ex_redirect, ex_sequential, ex_memory, mem_edge,
}
use riscv_vibecoded.Isa.Fields.{slice}
use riscv_vibecoded.Prelude.{
  ℕ, ◌*◌, ◌^◌, Bool, true, false, not, ◌&&◌, ◌||◌, ◌≡◌, refl, arith, ap, ◌∙◌, sym, inl, inr,
  Bool-cases,
}

-- Where the next word comes from.
redirect_ex :
    (d : Bundle) (x : Core)
    → x.phase ≡ ph_ex
    → fetch_redirect d x
      ≡ (branch_taken d x || d.is_jal || d.is_jalr || trap_pending d x || d.is_mret)
unfolding fetch_redirect
redirect_ex d x h = rw h refl

redirect_next :
    (d : Bundle) (x : Core)
    → (branch_taken d x || d.is_jal || d.is_jalr || trap_pending d x || d.is_mret) ≡ true
    → redirect_target d x ≡ next_pc d x
unfolding redirect_target next_pc
redirect_next d x red = ground arith

sequential_next :
    (d : Bundle) (x : Core)
    → (branch_taken d x || d.is_jal || d.is_jalr || trap_pending d x || d.is_mret) ≡ false
    → seq_pc d x ≡ next_pc d x
unfolding next_pc
sequential_next d x red = ground arith

cycle_to :
    (memory : ℕ → ℕ) (d : Bundle) (x y : Core)
    → decoder x.insn_exe ≡ d
    → edge d (answer memory x) x ≡ y
    → cycle memory x ≡ y
unfolding cycle clock
cycle_to memory d x y hd to = rw hd to

-- An instruction that is no load.
plain_value :
    (memory : ℕ → ℕ) (d : Bundle) (x y : Core)
    → d.is_load ≡ false
    → y.csrs ≡ tick x.csrs
    → y.pc_exe ≡ x.pc_exe
    → y.alu_result ≡ alu_result_comb d x
    → rd_wdata d y ≡ register_value memory d x
unfolding rd_wdata register_value seq_pc
plain_value memory d x y no_load csrs pc alu = rw (csrs, pc, alu) (simp no_load refl)

no_load :
    (d : Bundle) (trap : Bool)
    → (is_memory d && not trap) ≡ false
    → trap ≡ false
    → d.is_load ≡ false
no_load d trap m untrapped = ground arith

not_load : (d : Bundle) → is_memory d ≡ false → d.is_load ≡ false
not_load d m = ground arith

pub redirect_retires :
    (memory : ℕ → ℕ) (d : Bundle) (x : Core)
    → decoder x.insn_exe ≡ d
    → x.phase ≡ ph_ex
    → fetch_redirect d x ≡ true
    → (is_memory d && not (trap_pending d x)) ≡ false
    → Retired memory d x (cycles memory 2 x)
unfolding cycles ex_results
redirect_retires memory d x hd h red m =
    let y : Core = record (ex_results d x) {
      phase = ph_wb;
      word_pending = false;
      fetch = record x.fetch { fetch_phase = f_req; fetch_pc = redirect_target d x };
    } in
    let first : cycle memory x ≡ y =
      cycle_to memory d x y hd (ex_redirect d (answer memory x) x h red m) in
    rw first (
      wb_retires_requested memory d x y hd refl refl refl
        (redirect_next d x (sym (redirect_ex d x h) ∙ red)) refl
        (same_csrs d x y refl refl refl refl refl refl refl refl (rw m refl))
        (same_write memory d x y refl refl (λ i. refl)
          (λ untrapped.
            plain_value memory d x y (no_load d (trap_pending d x) m untrapped) refl refl refl)))

-- Two cycles of an instruction that falls through, with its successor on the way.
pub sequential_retires :
    (memory : ℕ → ℕ) (d : Bundle) (x : Core)
    → decoder x.insn_exe ≡ d
    → x.phase ≡ ph_ex
    → fetch_redirect d x ≡ false
    → is_memory d ≡ false
    → x.fetch.fetch_phase ≡ f_req
    → x.fetch.fetch_pc ≡ seq_pc d x
    → Retired memory d x (cycles memory 2 x)
unfolding cycles ex_results request Fetch.req_valid Fetch.req_addr
sequential_retires memory d x hd h red m q pc =
    let y : Core = record (ex_results d x) {
      phase = ph_wb;
      word_pending = true;
      fetch = record x.fetch {
        fetch_phase = f_idle;
        word = (answer memory x).rsp_rdata;
        word_pc = x.fetch.fetch_pc;
      };
    } in
    let valid : (answer memory x).rsp_valid ≡ true = rw (h, q) refl in
    let first : cycle memory x ≡ y =
      cycle_to memory d x y hd (ex_sequential d (answer memory x) x h red m q valid) in
    let next : seq_pc d x ≡ next_pc d x = sequential_next d x (sym (redirect_ex d x h) ∙ red) in
    let word : (answer memory x).rsp_rdata ≡ memory (slice 31 2 (next_pc d x) * 2 ^ 2) =
      rw (← next, ← pc, h) refl in
    rw first (
      wb_retires_pending memory d x y hd refl refl refl (pc ∙ next) word refl
        (same_csrs d x y refl refl refl refl refl refl refl refl (rw m refl))
        (same_write memory d x y refl refl (λ i. refl)
          (λ untrapped. plain_value memory d x y (not_load d m) refl refl refl)))

-- A load or a store after its request.
memory_value :
    (memory : ℕ → ℕ) (d : Bundle) (x y : Core)
    → d.is_csr ≡ false
    → (d.is_load ≡ true → d.is_store ≡ false)
    → y.pc_exe ≡ x.pc_exe
    → y.alu_result ≡ alu_result_comb d x
    → y.mem_addr ≡ alu_result_comb d x
    → (d.is_load ≡ true → y.mem_rdata ≡ accessed memory d x)
    → rd_wdata d y ≡ register_value memory d x
unfolding rd_wdata register_value seq_pc lsu Lsu.lanes
memory_value memory d x y no_csr load pc alu addr rdata = elim (Bool-cases d.is_load) [
  | inl l ↦ rw (pc, alu, addr, rdata l) (simp (no_csr, l, load l) refl)
  | inr l ↦ rw (pc, alu, addr) (simp (no_csr, l) refl)
]

-- Three cycles of a load or a store that does not trap: its request is answered, then its successor. The
-- memory may be another one after a store.
pub memory_retires :
    (memory later : ℕ → ℕ) (d : Bundle) (x : Core)
    → decoder x.insn_exe ≡ d
    → IsSound d
    → x.phase ≡ ph_ex
    → (is_memory d && not (trap_pending d x)) ≡ true
    → x.word_pending ≡ false
    → x.fetch.fetch_phase ≡ f_idle
    → (d.is_load ≡ true → later ≡ memory)
    → Retired later d x (cycle later (cycles memory 2 x))
unfolding cycles ex_results request seq_pc
memory_retires memory later d x hd sound h m p q same =
    let is_mem : is_memory d ≡ true = ground arith in
    let untrapped : trap_pending d x ≡ false = ground arith in
    let quiet = memory_only d sound is_mem in
    let red : fetch_redirect d x ≡ false = memory_redirect d x h quiet ∙ untrapped in
    let y : Core = record (ex_results d x) { phase = ph_mem } in
    let z : Core = record y {
      phase = ph_wb;
      mem_rdata = (answer memory y).rsp_rdata;
      csrs = tick y.csrs;
      fetch = record y.fetch { fetch_phase = f_req; fetch_pc = seq_pc d y };
    } in
    let first : cycle memory x ≡ y =
      cycle_to memory d x y hd (ex_memory d (answer memory x) x h red m p q) in
    let second : cycle memory y ≡ z =
      cycle_to memory d y z hd (mem_edge d (answer memory y) y refl p q refl) in
    rw (first, second)
      (wb_retires_requested later d x z hd refl p refl
        (sequential_next d x (sym (redirect_ex d x h) ∙ red)) refl
        (same_csrs d x z refl refl refl refl refl refl refl refl (rw m refl))
        (same_write later d x z refl refl (λ i. refl)
          (λ ok.
            memory_value later d x z (memory_not_csr d sound is_mem) (load_only d sound) refl refl
              refl (λ l. ap (λ (k : ℕ → ℕ). accessed k d x) (sym (same l))))))
