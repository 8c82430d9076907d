-- ===== src/Audio/Capture/Effects.antt =====
-- processFrames of libaudio/AudioHardware.cpp against the driver as one stream of frames.
use android_device_samsung_a.Prelude.{List}
