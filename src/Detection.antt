-- ===== src/Detection.antt =====
-- The FVG model's detection engine (phase1/streaming), and the batch program that it restates
-- (phase1/extract_golden_master.py).
pub mod Bars
pub mod Swings
pub mod Gaps
pub mod Raids
pub mod Shifts
pub mod Attempt
pub mod Orchestrator
pub mod Gate
mod Tests
