-- ===== src/Sensors.antt =====
-- The sensors HAL: libsensors.
pub mod Reader
pub mod Driver
pub mod Drivers
pub mod Gyro
pub mod Context
pub mod Poll
pub mod Bosch
mod Tests
