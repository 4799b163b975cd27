-- ===== src/Vectors.antt =====
-- The reference arithmetic and the test vectors of the multiplier and divider comparisons
-- (tools/mul_diff.py and tools/div_diff.py).
pub mod Word
pub mod Product
pub mod Division
pub mod Suite
