-- ===== src/Vcd/RoundTrip.antt =====
-- tools/sby_retire_stream.py: the parser reads back what a VCD file describes.
pub mod Ends
pub mod Lines
pub mod Steps
pub mod Parse
