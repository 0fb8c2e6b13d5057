-- ===== src/Tests.antt =====
-- Runs of the definitions at concrete inputs.
mod Fixture
mod Policy
mod Models
mod Runs
mod Caches
mod Checkpoint
mod Streams
