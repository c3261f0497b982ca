-- ===== src/Vectors.antt =====
-- The dynamic interrupt vectors, src/kernel/interrupt_vector.c.
pub mod Table
pub mod Counts
pub mod Scan
pub mod Handles
mod Tests
