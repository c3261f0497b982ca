-- ===== src/Frames.antt =====
-- The physical frame allocator, src/kernel/physical_memory.c. `frames` stands for FRAME_COUNT,
-- which is SAPOTE_EARLY_PHYSICAL_LIMIT / SAPOTE_PAGE_SIZE.
pub mod Bitmap
pub mod State
pub mod Records
pub mod Invariant
pub mod Range
pub mod Setup
pub mod Single
pub mod Contiguous
pub mod Steps
mod Tests
