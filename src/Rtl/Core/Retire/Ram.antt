-- ===== src/Rtl/Core/Retire/Ram.antt =====
-- rtl/core/rv32i_core.sv with a memory that answers at once and takes the writes: its cycles.
use native.Mathlib.Nat.{zero-add, suc-add}
use riscv_vibecoded.Rtl.Pkg.{Phase, ph_idle, ph_id, ph_ex, ph_mem, ph_wb}
use riscv_vibecoded.Rtl.Lsu
use riscv_vibecoded.Rtl.Decoder.{decoder}
use riscv_vibecoded.Rtl.Decoder.Outputs.{Bundle}
use riscv_vibecoded.Rtl.Core.State.{Core, in_phase}
use riscv_vibecoded.Rtl.Core.Wires.{accept, alu_result_comb, lsu}
use riscv_vibecoded.Rtl.Core.Outputs.{Request, request, rvfi}
use riscv_vibecoded.Rtl.Core.Trap.{trap_pending}
use riscv_vibecoded.Rtl.Core.Clock.{clock, edge, is_memory, phase_d}
use riscv_vibecoded.Rtl.Core.Retire.{cycle}
use riscv_vibecoded.Prelude.{
  ℕ, zero, suc, ◌+◌, true, false, not, ◌&&◌, if◌then◌else◌, ◌≡◌, refl, arith,
}

pub record System : Type 0 where
  pub core : Core
  pub memory : ℕ → ℕ

pub phase_after_ex :
    (memory : ℕ → ℕ) (x : Core)
    → x.phase ≡ ph_ex
    → (cycle memory x).phase ≡ (
        if is_memory (decoder x.insn_exe) && not (trap_pending (decoder x.insn_exe) x)
        then ph_mem
        else ph_wb)
unfolding cycle clock edge phase_d
phase_after_ex memory x h = rw h refl

pub insn_after_ex :
    (memory : ℕ → ℕ) (x : Core) → x.phase ≡ ph_ex → (cycle memory x).insn_exe ≡ x.insn_exe
unfolding cycle clock edge accept
insn_after_ex memory x h = rw h refl

pub phase_after_mem :
    (memory : ℕ → ℕ) (y : Core) → y.phase ≡ ph_mem → (cycle memory y).phase ≡ ph_wb
unfolding cycle clock edge phase_d request
phase_after_mem memory y h = rw h refl

no_write_in :
    (p : Phase) (c : Core)
    → c.phase ≡ p
    → in_phase ph_mem (record c { phase = p }) ≡ false
    → (request c).req_we ≡ false
unfolding request
no_write_in p c h other = rw h (ground (arith, other))

-- The request of a store, from the state in PH_EX.
abbrev pub store_request : Bundle → Core → Request
store_request d x =
    let lanes = Lsu.store_lanes (alu_result_comb d x) d.lsu_funct3 x.rs2 in
    record {
      req_valid = true;
      req_we = true;
      req_addr = Lsu.addr_o (alu_result_comb d x);
      req_be = lanes.be;
      req_wdata = lanes.wdata;
    }

pub request_after_ex :
    (memory : ℕ → ℕ) (d : Bundle) (x : Core)
    → decoder x.insn_exe ≡ d
    → x.phase ≡ ph_ex
    → (cycle memory x).phase ≡ ph_mem
    → d.is_store ≡ true
    → request (cycle memory x) ≡ store_request d x
request_after_ex memory d x hd h goes store =
    request_in_mem d x (cycle memory x) (rw (insn_after_ex memory x h) hd) goes store
      (unfold cycle clock edge in rw (h, hd) refl) (unfold cycle clock edge in rw h refl)
  where
    request_in_mem :
        (d : Bundle) (x y : Core)
        → decoder y.insn_exe ≡ d
        → y.phase ≡ ph_mem
        → d.is_store ≡ true
        → y.mem_addr ≡ alu_result_comb d x
        → y.rs2 ≡ x.rs2
        → request y ≡ store_request d x
    request_in_mem d x y hd h store addr rs2 =
        unfold request lsu Lsu.lanes in rw (h, hd, addr, rs2) (simp store refl)

-- What the memory does with a write request.
module _ (written : Request → (ℕ → ℕ) → ℕ → ℕ) where
  unfoldable pub next_memory : Core → (ℕ → ℕ) → ℕ → ℕ
  next_memory c memory = if (request c).req_we then written (request c) memory else memory

  -- A cycle of the core and its memory, which answers with the words before the write.
  unfoldable pub system_cycle : System → System
  system_cycle s = record { core = cycle s.memory s.core; memory = next_memory s.core s.memory }

  unfoldable pub run : ℕ → System → System
  run zero s = s
  run (suc k) s = run k (system_cycle s)

  -- The cycles of the first k in which rvfi_valid is set.
  unfoldable pub retired : ℕ → System → ℕ
  unfolding rvfi
  retired zero s = 0
  retired (suc k) s = (if (rvfi s.core).valid then 1 else 0) + retired k (system_cycle s)

  pub silent_cycle :
      (c c' : Core) (memory : ℕ → ℕ) (p : Phase)
      → c.phase ≡ p
      → in_phase ph_mem (record c { phase = p }) ≡ false
      → cycle memory c ≡ c'
      → system_cycle (record { core = c; memory = memory }) ≡ record { core = c'; memory = memory }
  unfolding system_cycle next_memory
  silent_cycle c c' memory p h other to = rw (no_write_in p c h other, to) refl

  pub run_add : (k n : ℕ) (s : System) → run (k + n) s ≡ run n (run k s)
  unfolding run
  run_add zero n s = rw (zero-add n) refl
  run_add (suc k) n s = rw (suc-add k n) (run_add k n (system_cycle s))

  pub retired_add : (k n : ℕ) (s : System) → retired (k + n) s ≡ retired k s + retired n (run k s)
  unfolding run retired
  retired_add zero n s = rw (zero-add n) (omega arith)
  retired_add (suc k) n s = rw (suc-add k n) (omega (arith, retired_add k n (system_cycle s)))

  pub in_four :
      (s s1 s2 s3 s4 : System)
      → s.core.phase ≡ ph_idle
      → s1.core.phase ≡ ph_id
      → s2.core.phase ≡ ph_ex
      → s3.core.phase ≡ ph_wb
      → system_cycle s ≡ s1
      → system_cycle s1 ≡ s2
      → system_cycle s2 ≡ s3
      → system_cycle s3 ≡ s4
      → (run 4 s ≡ s4) × (retired 4 s ≡ 1)
  unfolding run retired rvfi
  in_four s s1 s2 s3 s4 p p1 p2 p3 e e1 e2 e3 =
      (rw (e, e1, e2, e3) refl, rw (e, e1, e2, p, p1, p2, p3) refl)

  pub in_five :
      (s s1 s2 s3 s4 s5 : System)
      → s.core.phase ≡ ph_idle
      → s1.core.phase ≡ ph_id
      → s2.core.phase ≡ ph_ex
      → s3.core.phase ≡ ph_mem
      → s4.core.phase ≡ ph_wb
      → system_cycle s ≡ s1
      → system_cycle s1 ≡ s2
      → system_cycle s2 ≡ s3
      → system_cycle s3 ≡ s4
      → system_cycle s4 ≡ s5
      → (run 5 s ≡ s5) × (retired 5 s ≡ 1)
  unfolding run retired rvfi
  in_five s s1 s2 s3 s4 s5 p p1 p2 p3 p4 e e1 e2 e3 e4 =
      (rw (e, e1, e2, e3, e4) refl, rw (e, e1, e2, e3, p, p1, p2, p3, p4) refl)
