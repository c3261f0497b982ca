-- ===== src/Surface.antt =====
-- Cached pictures with their damage, src/kernel/surface.c.
pub mod Picture
pub mod Rows
pub mod Damage
pub mod Fill
pub mod Life
pub mod Pixel
mod Tests
