-- ===== src/Rtl/Lsu.antt =====
-- rtl/core/lsu.sv: the bus side of a load or a store, from its address, funct3 and data.
pub mod RoundTrip
pub mod Bytes
use riscv_vibecoded.Isa.Fields.{slice, bit, repeat_bit}
use riscv_vibecoded.Prelude.{ℕ, ◌+◌, ◌*◌, ◌/◌, ◌%◌, ◌^◌, Bool, ◌==◌, if◌then◌else◌}

-- be_o, wdata_o and rd_data_o.
pub record Lanes : Type 0 where
  pub be : ℕ
  pub wdata : ℕ
  pub rd_data : ℕ

unfoldable pub addr_o : ℕ → ℕ
addr_o addr = slice 31 2 addr * 2 ^ 2

abbrev pub load_byte : ℕ → ℕ → ℕ
load_byte addr rdata = rdata / 2 ^ (8 * slice 1 0 addr) % 2 ^ 8

abbrev pub load_half : ℕ → ℕ → ℕ
load_half addr rdata = rdata / 2 ^ (16 * bit 1 addr) % 2 ^ 16

-- The enables have four bits, so a shift drops those of a halfword at the last byte.
abbrev pub byte_enable : ℕ → ℕ
byte_enable addr = 0b0001 * 2 ^ slice 1 0 addr % 2 ^ 4

abbrev pub half_enable : ℕ → ℕ
half_enable addr = 0b0011 * 2 ^ slice 1 0 addr % 2 ^ 4

unfoldable pub store_lanes : ℕ → ℕ → ℕ → Lanes
store_lanes addr funct3 wdata =
    if funct3 == 0b000
    then record {
      be = byte_enable addr;
      wdata = slice 7 0 wdata * 2 ^ (8 * slice 1 0 addr);
      rd_data = 0;
    }
    else if funct3 == 0b001
    then record {
      be = half_enable addr;
      wdata = slice 15 0 wdata * 2 ^ (16 * bit 1 addr);
      rd_data = 0;
    }
    else if funct3 == 0b010
    then record { be = 0b1111; wdata = wdata; rd_data = 0 }
    else record { be = 0; wdata = 0; rd_data = 0 }

unfoldable pub load_lanes : ℕ → ℕ → ℕ → Lanes
load_lanes addr funct3 rdata =
    let byte = load_byte addr rdata in
    let half = load_half addr rdata in
    if funct3 == 0b000
    then record {
      be = byte_enable addr;
      wdata = 0;
      rd_data = repeat_bit 24 (bit 7 byte) * 2 ^ 8 + byte;
    }
    else if funct3 == 0b001
    then record {
      be = half_enable addr;
      wdata = 0;
      rd_data = repeat_bit 16 (bit 15 half) * 2 ^ 16 + half;
    }
    else if funct3 == 0b010
    then record { be = 0b1111; wdata = 0; rd_data = rdata }
    else if funct3 == 0b100
    then record { be = byte_enable addr; wdata = 0; rd_data = byte }
    else if funct3 == 0b101
    then record { be = half_enable addr; wdata = 0; rd_data = half }
    else record { be = 0; wdata = 0; rd_data = 0 }

-- The outputs, by store_i.
unfoldable pub lanes : ℕ → ℕ → Bool → ℕ → ℕ → Lanes
lanes addr funct3 store_i wdata rdata =
    if store_i then store_lanes addr funct3 wdata else load_lanes addr funct3 rdata
