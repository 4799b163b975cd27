-- ===== src/Replacement.antt =====
-- The component replacements of tools/refactor.py: which committed Verilog may stand in for a locked
-- golden file.
pub mod Git
pub mod Golden
pub mod Patterns
pub mod Lint
pub mod Content
pub mod Plan
