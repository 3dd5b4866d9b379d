-- ===== src/Orders.antt =====
-- The order manager of shadow_runner: the day's pending orders of one model for one user.
pub mod Broker
pub mod Sizing
pub mod Target
pub mod Machine
pub mod Placing
pub mod Fills
pub mod Closes
pub mod View
pub mod Quiet
pub mod Steps
pub mod Consistent
pub mod Siblings
pub mod Frozen
mod Tests
