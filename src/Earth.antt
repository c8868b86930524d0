-- ===== src/Earth.antt =====
-- The devices of the earth layer.
pub mod Timer
pub mod InitTimer
pub mod Devices
mod Tests
