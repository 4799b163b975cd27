-- ===== src/Contract.antt =====
-- The contract that locks a unit's interface and golden source (tools/mul_contract.py).
pub mod Fields
pub mod Mul
pub mod Exact
pub mod Div
pub mod Pairs
pub mod Manifest
