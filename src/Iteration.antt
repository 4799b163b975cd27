-- ===== src/Iteration.antt =====
-- `validate-iteration` of tools/refactor.py: the checks of an iteration's evidence files.
pub mod Require
pub mod Gate
pub mod Host
pub mod Target
pub mod Summary
pub mod Commands
pub mod Artifacts
pub mod Review
pub mod Validate
