-- ===== src/Locks.antt =====
-- The validation locks of tools/refactor.py: files that one run creates and only that run removes.
pub mod Write
pub mod Disk
pub mod Release
pub mod Acquire
pub mod World
