-- ===== src/Heap.antt =====
-- The kernel heap, src/kernel/heap.c.
pub mod Table
pub mod Chain
pub mod Split
pub mod Merge
pub mod Coalesce
pub mod Calls
pub mod Growth
pub mod Grant
pub mod Allocate
pub mod Complete
pub mod Release
mod Tests
