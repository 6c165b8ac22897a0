-- ===== src/Rtl/Fetch/Requests.antt =====
-- rtl/core/fetch_unit.sv: what a redirect and a response do to the unit.
use riscv_vibecoded.Rtl.Pkg.{f_req}
use riscv_vibecoded.Rtl.Fetch.{Fetch as FetchUnit, Ports, requesting, capture, clock}
use riscv_vibecoded.Prelude.{true, not, ◌&&◌, ◌≡◌, inl, inr, refl, arith, Bool-cases}

capture_aborted : (p : Ports) (f : FetchUnit) → p.redirect ≡ true → capture p f ≡ f
unfolding capture
capture_aborted p f h =
    elim (Bool-cases (requesting f.fetch_phase && p.rsp_valid && not p.redirect)) [
      | inl e ↦ absurd (ground arith)
      | inr e ↦ rw e refl
    ]

-- A redirect requests its target in any state, and nothing of the aborted request is kept.
pub redirects :
    (p : Ports) (f : FetchUnit)
    → p.redirect ≡ true
    → clock p f ≡ record f { fetch_phase = f_req; fetch_pc = p.redirect_target }
unfolding clock
redirects p f h = rw (capture_aborted p f h, h) refl
