-- ===== src/Sensors/Drivers/Delays.antt =====
-- What setDelay of the drivers of libsensors writes.
use android_device_samsung_a.Prelude.{ℕ, ◌+◌, ◌*◌, ◌%◌, ◌≤◌, ◌<◌, ◌≡◌, ◌⊎◌, max, arith}
use android_device_samsung_a.Sensors.Drivers.{delay_ms, compass_delay}

-- The delay that Smb380Sensor and OrientationSensor write is a positive number of milliseconds, a
-- multiple of 10, which is at most 10 ms or the delay asked for, whichever is larger, and less than 10
-- ms below it.
pub delay_ms_lem :
    (ns : ℕ)
    → (delay_ms ns % 10 ≡ 0)
      × (10 ≤ delay_ms ns)
      × (delay_ms ns * 1000000 ≤ max ns 10000000)
      × (ns < (delay_ms ns + 10) * 1000000)
unfolding delay_ms
delay_ms_lem ns = ground arith

-- The delays, besides 1 ms, that the kernel driver of the compass takes, in milliseconds.
abbrev pub IsCompassStep : ℕ → Type 0
IsCompassStep d = (d ≡ 20) ⊎ ((d ≡ 60) ⊎ ((d ≡ 200) ⊎ (d ≡ 1000)))

-- CompassSensor writes the longest of the delays 20, 60, 200 and 1000 ms that is not longer than the one
-- asked for, and 1 ms where each of them is longer.
pub compass_delay_lem :
    (ns : ℕ)
    → ((IsCompassStep (compass_delay ns) × (compass_delay ns * 1000000 ≤ ns))
        ⊎ ((compass_delay ns ≡ 1) × (ns < 20000000)))
      × ((d : ℕ) → IsCompassStep d → d * 1000000 ≤ ns → d ≤ compass_delay ns)
unfolding compass_delay
compass_delay_lem ns = (ground arith, λ d step l. ground (arith, step, l))
