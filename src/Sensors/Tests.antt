-- ===== src/Sensors/Tests.antt =====
-- Concrete runs of libsensors.
use android_device_samsung_a.Prelude.{
  ℕ, zero, suc, ◌≢◌, ◌+◌, ◌*◌, ◌%◌, ◌≡◌, ◌≤◌, ◌<◌, ◌⊎◌, inl, refl, Bool, true, false, some, none,
  List, [], ◌∷◌, ◌++◌, max, arith,
}
use android_device_samsung_a.Prelude.Int.{ℤ, pos, negsuc}
use android_device_samsung_a.Sensors.Reader.{
  InputEvent, EventReader, ReadOutcome, blank, failed, got, fill, read_events_into, wrap_head,
  read_event, next,
}
use android_device_samsung_a.Sensors.Reader.Contents.{IsReader, used, around, contents}
use android_device_samsung_a.Sensors.Reader.Queue.{Fills, fill_lem, next_lem}
use android_device_samsung_a.Sensors.Driver.{
  Values, SensorEvent, Driver, ev_syn, ev_rel, read_events, read_filled, loop, process,
}
use android_device_samsung_a.Sensors.Driver.Reads.{Reads, read_events_got, read_events_error}
use android_device_samsung_a.Sensors.Drivers.{FloatApi, delay_ms, compass_delay}
use android_device_samsung_a.Sensors.Drivers.Delays.{IsCompassStep, delay_ms_lem, compass_delay_lem}
use android_device_samsung_a.Sensors.Poll.{
  PollSensor, Scan, ready, scan_sensors, poll_events, poll_sensors,
}
use android_device_samsung_a.Sensors.Context.Compass.{compass_writes, compass_stays_off}
use android_device_samsung_a.Sensors.Poll.Rounds.{AllSound}
use android_device_samsung_a.Sensors.Poll.Before.{written_before_array}
use android_device_samsung_a.Sensors.Poll.Start.{new_context-AllSound}
use android_device_samsung_a.Sensors.Poll.Loop.{Round, to_rounds, Fed, Polls, poll_events_lem}
use android_device_samsung_a.Sensors.Driver.Deliver.{reports}
use android_device_samsung_a.Sensors.Gyro.{gyro_decode, gyro_read_events}
use android_device_samsung_a.Sensors.Gyro.Spin.{failures, gyro_spins}
use android_device_samsung_a.Sensors.Context.{
  Slot, bosch, id_a, id_m, id_o, Sysfs, Context, activate, new_context,
}
use android_device_samsung_a.Sensors.Context.Active.{IsActive}
use android_device_samsung_a.Sensors.Context.Invariant.{
  activate_all, activate_all_lem, accelerometer_stays_off,
}

abbrev move : ℕ → InputEvent
move n = record { type = ev_rel; code = 0; value = pos n }

abbrev sync : InputEvent
sync = record { type = ev_syn; code = 0; value = pos 0 }

-- A ring of two places whose last one holds an event.
abbrev half_full : EventReader
half_full = record {
  buffer = blank ∷ move 3 ∷ blank ∷ blank ∷ [];
  buffer_end = 2;
  head = 2;
  curr = 1;
  free_space = 1;
}

half_full-IsReader : IsReader half_full
half_full-IsReader = (refl, omega arith, omega arith, omega arith, inl refl)

fill_lem_example :
    ((half_full.free_space ≡ 0) × (fill half_full (got (sync ∷ [])) ≡ (pos 0, half_full)))
    ⊎ ((0 < half_full.free_space)
        × Fills half_full (got (sync ∷ [])) (fill half_full (got (sync ∷ []))))
fill_lem_example = fill_lem half_full (got (sync ∷ [])) half_full-IsReader (omega arith)

-- It wraps: the new event goes to the front.
wrap_test : (fill half_full (got (sync ∷ []))).1.head ≡ 1
unfolding fill
wrap_test = refl

next_lem_example :
    (((read_event half_full).0 ≡ false) × (contents half_full ≡ []))
    ⊎ ((e : InputEvent) × (read_event half_full ≡ (true, some e))
        × IsReader (next half_full)
        × (suc (used (next half_full)) ≡ used half_full)
        × (contents half_full ≡ e ∷ contents (next half_full)))
next_lem_example = next_lem half_full half_full-IsReader

abbrev keep_x : Values ℕ → InputEvent → Values ℕ
keep_x v e = elim e.value [ pos n ↦ record v { x = n } | negsuc n ↦ v ]

abbrev driver : Driver ℕ
driver = record {
  enabled = 1;
  reader = half_full;
  pending = record {
    version = 104;
    sensor = 0;
    type = 1;
    timestamp = 0;
    values = record { x = 0; y = 0; z = 0 };
    status = 0;
  };
  has_pending = false;
}

abbrev clock : ℕ → ℕ
clock n = 100 + n

read_events_got_example :
    Reads ev_rel keep_x clock 4 driver
      (contents half_full ++ (sync ∷ []))
      (read_events ev_rel keep_x clock 4 (got (sync ∷ [])) driver)
read_events_got_example =
    read_events_got ev_rel keep_x clock 4 driver (sync ∷ []) (omega arith) refl half_full-IsReader
      (omega arith)

read_events_error_example :
    (r : EventReader) × (read_events ev_rel keep_x clock 4 (failed 5) driver
      ≡ some (record { result = negsuc 4; events = []; driver = record driver { reader = r } }))
    × IsReader r
    × (contents r ≡ contents half_full)
read_events_error_example =
    read_events_error ev_rel keep_x clock 4 driver (failed 5) 4 (omega arith) refl
      half_full-IsReader tt (omega arith) refl

delay_ms_lem_example :
    (delay_ms 66667000 % 10 ≡ 0)
    × (10 ≤ delay_ms 66667000)
    × (delay_ms 66667000 * 1000000 ≤ max 66667000 10000000)
    × (66667000 < (delay_ms 66667000 + 10) * 1000000)
delay_ms_lem_example = delay_ms_lem 66667000

compass_delay_lem_example :
    ((IsCompassStep (compass_delay 20000000) × (compass_delay 20000000 * 1000000 ≤ 20000000))
      ⊎ ((compass_delay 20000000 ≡ 1) × ◌<◌ 20000000 20000000))
    × ((d : ℕ) → IsCompassStep d → d * 1000000 ≤ 20000000 → d ≤ compass_delay 20000000)
compass_delay_lem_example = compass_delay_lem 20000000

-- Floats as natural numbers, for the runs.
abbrev nats : FloatApi
nats = record {
  Float = ℕ;
  lit = λ n. n;
  of_int = λ i. elim i [ pos n ↦ n | negsuc n ↦ 0 ];
  of_size = λ n. n;
  times = λ a b. a * b;
  over = λ a b. a;
  powf = λ a b. b;
  gravity_earth = 9;
  m_pi = 3;
  minus = λ a. a;
}

suc_ne : ◌≢◌ {A = ℕ} 1 0
suc_ne e = omega arith

abbrev all_open : Sysfs
all_open = record { opens = λ s. true; absinfo = none }

abbrev calls : List (Sysfs × ℕ × ℕ)
calls = (all_open, id_o, 1) ∷ (all_open, id_a, 1) ∷ (all_open, id_o, 0) ∷ []

activate_all_lem_example : IsActive nats (activate_all nats calls (new_context nats all_open 104 0))
activate_all_lem_example =
    activate_all_lem nats all_open 104 calls ((λ s. refl), ((λ s. refl), ((λ s. refl), tt)))

compass_stays_off_example :
    let c =
      activate_all nats
        ((all_open, id_m, 1) ∷ (all_open, id_o, 1) ∷ [])
        (new_context nats all_open 104 1) in
    (compass_writes c.writes ≡ [])
    × ((activate nats all_open id_m 1 c).0 ≡ pos 0)
    × (compass_writes (activate nats all_open id_m 1 c).1.writes ≡ [])
compass_stays_off_example =
    compass_stays_off nats all_open all_open 104 ((all_open, id_m, 1) ∷ (all_open, id_o, 1) ∷ [])
      (suc_ne, (suc_ne, tt))

abbrev all_but_bosch : Slot → Bool
all_but_bosch bosch = false
all_but_bosch _ = true

abbrev without_bosch : Sysfs
without_bosch = record { opens = all_but_bosch; absinfo = none }

abbrev started : Context nats
started = new_context nats all_open 104 0

accelerometer_stays_off_example :
    let (err, c') = activate nats without_bosch id_o 1 started in
    let (err', c'') = activate nats all_open id_a 1 c' in
    (err ≡ negsuc 0)
    × (err' ≡ pos 0)
    × (c''.accel_active ≡ true)
    × (c''.bosch_sensor.enabled ≡ 0)
    × (c''.writes ≡ started.writes)
unfolding new_context
accelerometer_stays_off_example =
    accelerometer_stays_off nats without_bosch all_open started refl refl refl

abbrev sensor : PollSensor ℕ
sensor = record { kind = ev_rel; decode = keep_x; driver = driver; revents = true }

-- The sync arrives in the first round; in the second one the descriptor is ready and holds another.
abbrev rounds : List Round
rounds =
    ((λ i. sync ∷ []), clock, ready 1 (true ∷ []))
    ∷ ((λ i. sync ∷ []), clock, ready 0 (false ∷ []))
    ∷ []

rounds-Fed : Fed rounds (sensor ∷ []) (pos 4) (pos 0)
unfolding Fed scan_sensors read_events read_filled loop process fill read_events_into wrap_head
    read_event next
rounds-Fed = (
  ((half_full-IsReader, inl refl), omega arith, tt),
  ((((refl, omega arith, omega arith, omega arith, inl refl), inl refl), omega arith, tt), tt),
)

poll_events_lem_example :
    Polls none 4 0 (poll_events (to_rounds rounds) (sensor ∷ []) (pos 4) (pos 0))
poll_events_lem_example = poll_events_lem rounds (sensor ∷ []) 4 0 refl rounds-Fed

-- Sensor 0 fails with errno 5, sensor 1 brings a sync.
abbrev fails_first : ℕ → ReadOutcome
fails_first zero = failed 5
fails_first (suc n) = got (sync ∷ [])

written_before_array_example :
    (r : Scan ℕ) × (w : SensorEvent ℕ) × (ws : List (ℤ × SensorEvent ℕ)) × (scan_sensors fails_first
        clock 0
        (sensor ∷ sensor ∷ [])
        (pos 4)
        (pos 0)
      ≡ some r)
    × (r.written ≡ (negsuc 4, w) ∷ ws)
unfolding reports contents around
written_before_array_example =
    written_before_array fails_first clock 0 3 4 sensor sensor [] (sync ∷ []) refl refl
      half_full-IsReader tt (omega arith) refl refl refl half_full-IsReader (omega arith) refl
      (omega arith) tt

gyro_spins_example :
    gyro_read_events nats clock 4 (got (move 7 ∷ [])) (failures (18 ∷ 18 ∷ [])) driver ≡ none
unfolding reports gyro_decode contents around
gyro_spins_example =
    gyro_spins nats clock 3 driver (move 7 ∷ []) (18 ∷ 18 ∷ []) refl refl half_full-IsReader
      (omega arith) (omega arith) refl

new_context-AllSound_example :
    AllSound (poll_sensors nats (new_context nats all_open 104 0) (true ∷ []))
new_context-AllSound_example = new_context-AllSound nats all_open 104 0 (true ∷ [])
