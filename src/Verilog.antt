-- ===== src/Verilog.antt =====
-- The checks of Verilog text in tools/refactor.py.
pub mod Mask
pub mod Macros
