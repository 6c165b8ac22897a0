-- ===== src/Formal/M1.antt =====
-- scripts/formal_m1_gen.py: its constants and its `main`.
use riscv_vibecoded.Formal.{Config}
use riscv_vibecoded.Formal.Generate.{Environment, Run, generate}
use riscv_vibecoded.Py.Text.{Text, text}
use riscv_vibecoded.Prelude.{List, [], ◌∷◌}

-- CORE_SV
abbrev pub core_sv : List Text
core_sv =
    text "rtl/core/up5k_rv_pkg.sv"
    ∷ text "rtl/core/decoder.sv"
    ∷ text "rtl/core/regfile.sv"
    ∷ text "rtl/core/alu.sv"
    ∷ text "rtl/core/lsu.sv"
    ∷ text "rtl/core/fetch_unit.sv"
    ∷ text "rtl/core/rv32i_core.sv"
    ∷ text "formal/up5k_rv/wrapper.sv"
    ∷ []

abbrev pub bmc_checks : List Text
bmc_checks = text "reg_ch0" ∷ text "pc_bwd_ch0" ∷ []

abbrev pub config : Config
config = record {
  tag = text "m1";
  root_name = text "up5k-rv-formal";
  core_sv = core_sv;
  bmc_checks = bmc_checks;
}

unfoldable pub main : Environment → List Text → Run
unfolding generate
main = generate config
