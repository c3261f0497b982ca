-- ===== src/Boot.antt =====
-- The parser of the boot information, src/kernel/multiboot2.c.
pub mod Memory
pub mod Tags
pub mod Parse
pub mod Ends
pub mod Reads
pub mod Inside
pub mod Regions
pub mod Handover
pub mod Pixels
mod Tests
