-- ===== src/Tests.antt =====
-- The theorems at concrete inputs, and runs of the definitions on inputs taken from the source.
mod Vectors
mod Iteration
mod Locks
mod Transcript
mod Publication
mod Waivers
mod Replacement
mod Controls
mod Identity
mod Contract
mod Divider
mod Verilog
