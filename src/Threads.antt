-- ===== src/Threads.antt =====
-- The thread scheduler, src/kernel/thread.c.
pub mod State
pub mod Schedule
pub mod Stacks
pub mod Life
pub mod Slots
pub mod Invariant
pub mod Keeps
pub mod Rotation
pub mod Turns
pub mod Verify
pub mod Sound
pub mod Verified
pub mod Join
mod Tests
