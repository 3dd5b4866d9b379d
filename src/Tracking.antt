-- ===== src/Tracking.antt =====
-- Open positions that outlive their day: shadow_runner/position_tracker.py and
-- shadow_runner/orphan_recovery.py.
pub mod Desk
pub mod Orphans
pub mod Tracker
pub mod Trace
pub mod Entries
pub mod Sound
pub mod Steps
pub mod Still
pub mod Runs
pub mod Looks
pub mod Spread
pub mod Resolved
pub mod Fates
pub mod Recovery
mod Tests
