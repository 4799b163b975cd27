-- ===== src/Transcript.antt =====
-- The reading of build and simulation logs (tools/refactor.py and tools/sim_result.py).
pub mod Search
pub mod Simulation
pub mod Warnings
pub mod Summary
