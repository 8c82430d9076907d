-- ===== src/Audio.antt =====
-- The audio HAL: `AudioHardware` of libaudio/AudioHardware.cpp and its streams.
pub mod Config
pub mod Routes
pub mod State
pub mod Card
pub mod Streams
pub mod Modem
pub mod Mode
pub mod Transfer
pub mod Client
pub mod Reach
pub mod Sound
pub mod Capture
mod Tests
