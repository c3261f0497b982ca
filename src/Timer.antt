-- ===== src/Timer.antt =====
-- The queue of pending deadlines, src/kernel/timer.c.
pub mod Table
pub mod Calls
pub mod Sleep
pub mod Due
pub mod Expiry
pub mod Cover
pub mod Waking
pub mod Slots
pub mod Identifiers
pub mod Requests
mod Tests
