-- ===== src/Rtl/Fetch.antt =====
-- rtl/core/fetch_unit.sv: one request at a time for the word of an address.
pub mod Requests
use riscv_vibecoded.Isa.Fields.{slice}
use riscv_vibecoded.Rtl.Pkg.{FetchPhase, f_idle, f_req}
use riscv_vibecoded.Prelude.{ℕ, ◌*◌, ◌^◌, Bool, true, false, not, ◌&&◌, if◌then◌else◌}

pub record Fetch : Type 0 where
  pub fetch_phase : FetchPhase
  pub fetch_pc : ℕ
  pub word : ℕ
  pub word_pc : ℕ

pub record Ports : Type 0 where
  pub start : Bool
  pub start_pc : ℕ
  pub redirect : Bool
  pub redirect_target : ℕ
  pub rsp_valid : Bool
  pub rsp_rdata : ℕ

abbrev pub reset : Fetch
reset = record { fetch_phase = f_idle; fetch_pc = 0; word = 0; word_pc = 0 }

abbrev pub requesting : FetchPhase → Bool
requesting f_idle = false
requesting f_req = true

-- req_valid_o, req_addr_o and word_valid_o.
unfoldable pub req_valid : Fetch → Bool
req_valid f = requesting f.fetch_phase

unfoldable pub req_addr : Fetch → ℕ
req_addr f = slice 31 2 f.fetch_pc * 2 ^ 2

unfoldable pub word_valid : Fetch → Bool → Bool
word_valid f rsp_valid = requesting f.fetch_phase && rsp_valid

-- The response of the current request, unless it is aborted.
unfoldable pub capture : Ports → Fetch → Fetch
capture p f =
    if requesting f.fetch_phase && p.rsp_valid && not p.redirect
    then record f { word = p.rsp_rdata; word_pc = f.fetch_pc }
    else f

unfoldable pub clock : Ports → Fetch → Fetch
clock p f =
    let captured = capture p f in
    if p.redirect
    then record captured { fetch_phase = f_req; fetch_pc = p.redirect_target }
    else if not (requesting f.fetch_phase) && p.start
    then record captured { fetch_phase = f_req; fetch_pc = p.start_pc }
    else if requesting f.fetch_phase && p.rsp_valid
    then record captured { fetch_phase = f_idle }
    else captured
