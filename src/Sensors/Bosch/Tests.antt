-- ===== src/Sensors/Bosch/Tests.antt =====
-- Tests and witnesses for libsensors/BoschYamaha.cpp, over whole numbers in place of floats.
use android_device_samsung_a.Prelude.{
  ℕ, ◌+◌, ◌-◌, ◌*◌, ◌≡◌, refl, inl, false, ◌==◌, ltb, none, some, [], ◌∷◌, ◌++◌, length, arith,
}
use android_device_samsung_a.Prelude.Int.{pos, negsuc}
use android_device_samsung_a.Sensors.Reader.{EventReader, got, blank}
use android_device_samsung_a.Sensors.Reader.Contents.{IsReader, used, around, contents}
use android_device_samsung_a.Sensors.Driver.Deliver.{reports}
use android_device_samsung_a.Sensors.Drivers.{FloatApi}
use android_device_samsung_a.Sensors.Bosch.Orientation.{MathApi}
use android_device_samsung_a.Sensors.Bosch.{
  Half, BoschYamaha, Outcome, new_pending, blank_values, bosch_read_events, bosch_enable,
}
use android_device_samsung_a.Sensors.Bosch.Reads.{Reads, bosch_read_events-Reads}
use android_device_samsung_a.Sensors.Bosch.Overrun.{bosch_read_events-overruns}

abbrev whole : FloatApi
whole = record {
  Float = ℕ;
  lit = λ n. n;
  of_int = λ i. elim i [ pos n ↦ n | negsuc n ↦ 0 ];
  of_size = λ n. n;
  times = λ a b. a * b;
  over = λ a b. a;
  powf = λ a b. b;
  gravity_earth = 9;
  m_pi = 3;
  minus = λ a. a;
}

abbrev whole_math : MathApi whole
whole_math = record {
  plus = λ a b. a + b;
  sub = λ a b. a - b;
  sqrt = λ a. a;
  atan2 = λ a b. a;
  asin = λ a. a;
  degrees = λ a. a;
  trunc = λ a. a;
  is_zero = λ a. a == 0;
  lt = ltb;
}

abbrev fresh_ring : EventReader
fresh_ring = record {
  buffer = blank ∷ blank ∷ blank ∷ blank ∷ [];
  buffer_end = 2;
  head = 0;
  curr = 0;
  free_space = 2;
}

abbrev half_on : ℕ → ℕ → Half ℕ
half_on sensor type = record {
  enabled = 1;
  reader = fresh_ring;
  pending = new_pending whole 104 sensor type;
  last_read = blank_values whole;
  data_ready = 0;
}

abbrev both_on : BoschYamaha ℕ
both_on = record {
  magnetic = half_on 1 2;
  accel = half_on 0 1;
  orientation = new_pending whole 104 2 3;
  delay_a = 200000000;
  delay_m = 200000000;
  delay_o = 200000000;
}

abbrev clock : ℕ → ℕ
clock n = 100 + n

fresh_ring-IsReader : IsReader fresh_ring
unfolding used
fresh_ring-IsReader = (refl, omega arith, omega arith, omega arith, inl refl)

bosch_read_events-Reads_example :
    Reads whole whole_math 2 both_on
      (contents fresh_ring ++ (blank ∷ []))
      (contents fresh_ring ++ (blank ∷ []))
      (bosch_read_events whole whole_math clock clock 2
        (got (blank ∷ []))
        (got (blank ∷ []))
        both_on)
bosch_read_events-Reads_example =
    bosch_read_events-Reads whole whole_math clock clock 2 both_on (blank ∷ []) (blank ∷ [])
      (omega arith) fresh_ring-IsReader fresh_ring-IsReader (omega arith) (omega arith)

-- One EV_SYN for each sensor, and room for two events.
bosch_read_events-overruns_example :
    (x : Outcome ℕ) × (bosch_read_events whole whole_math clock clock 2
        (got (blank ∷ []))
        (got (blank ∷ []))
        both_on
      ≡ some x)
    × (x.result ≡ pos 3)
    × (length x.events ≡ 3)
unfolding contents reports around
bosch_read_events-overruns_example =
    bosch_read_events-overruns whole whole_math clock clock 2 both_on (blank ∷ []) (blank ∷ [])
      fresh_ring-IsReader fresh_ring-IsReader (omega arith) (omega arith) (omega arith)
      (omega arith) (omega arith)

-- Where the file cannot be opened, enable returns 0 and the accelerometer stays off.
enable_fails_test :
    (b : BoschYamaha ℕ) → b.accel.enabled ≡ 0 → bosch_enable false 0 1 b ≡ (pos 0, none, b)
unfolding bosch_enable
enable_fails_test b off = ground (arith, off)
