-- ===== src/Runner.antt =====
-- shadow_runner/runner.py: the loop that polls bars, decides days, feeds the detection engine and hands
-- its candidates to the order managers of the subscribers.
pub mod Hub
pub mod Day
pub mod Bars
pub mod Polling
pub mod Narrative
pub mod Told
pub mod Tale
pub mod Whole
pub mod Alike
pub mod Replay
pub mod Wedge
pub mod Once
pub mod Kept
pub mod Fresh
pub mod Progress
mod Tests
