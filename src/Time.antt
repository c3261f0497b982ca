-- ===== src/Time.antt =====
-- Timekeeping: src/kernel/tsc.c and src/kernel/clock.c.
pub mod Tsc
pub mod Clock
pub mod PmTimer
mod Tests
