-- ===== src/Sensors/Poll.antt =====
-- pollEvents of libsensors/sensors.cpp. What the system calls return is an input, by round of the loop.
pub mod Rounds
pub mod Loop
pub mod Start
pub mod Before
use android_device_samsung_a.Prelude.{
  ℕ, zero, suc, ◌||◌, Bool, true, false, Option, none, some, List, [], ◌∷◌, ◌++◌, if◌then◌else◌,
}
use android_device_samsung_a.Prelude.Int.{ℤ, pos, negsuc, ◌+ℤ◌, ◌-ℤ◌, lt_int}
use android_device_samsung_a.Sensors.Reader.{InputEvent, ReadOutcome, neg}
use android_device_samsung_a.Sensors.Driver.{
  Values, SensorEvent, Driver, Delivery, ev_abs, ev_rel, read_events,
}
use android_device_samsung_a.Sensors.Drivers.{
  FloatApi, light_decode, proximity_decode, smb380_decode, compass_decode, orientation_decode,
}
use android_device_samsung_a.Sensors.Context.{Context}

-- `mSensors[i]` with POLLIN of `mPollFds[i].revents`: the driver, and what its readEvents is.
pub record PollSensor (F : Type 0) : Type 0 where
  pub kind : ℕ
  pub decode : Values F → InputEvent → Values F
  pub driver : Driver F
  pub revents : Bool

-- The state behind a scan of the sensors. `written` are the events written to the caller's array, with
-- their index in it.
pub record Scan (F : Type 0) : Type 0 where
  pub sensors : List (PollSensor F)
  pub count : ℤ
  pub nb_events : ℤ
  pub written : List (ℤ × SensorEvent F)

-- What poll(2) returns once it is not interrupted: an error, or how many descriptors are ready, and of
-- the sensors which.
pub data PollOutcome : Type 0 where
  poll_failed : ℕ → PollOutcome
  ready : ℕ → List Bool → PollOutcome

-- What a round of the loop meets: read(2) on the descriptor of sensor `i`, the clock, and poll(2).
pub record PollRound : Type 0 where
  pub outcome : ℕ → ReadOutcome
  pub clock : ℕ → ℕ
  pub polled : PollOutcome

-- The result, the sensors, and the events written in all rounds.
pub record PollEnd (F : Type 0) : Type 0 where
  pub result : ℤ
  pub sensors : List (PollSensor F)
  pub written : List (ℤ × SensorEvent F)

-- A negative `int` is for readEvents as good as 0.
abbrev pub to_room : ℤ → ℕ
to_room (pos n) = n
to_room (negsuc n) = 0

abbrev pub is_zero : ℤ → Bool
is_zero (pos zero) = true
is_zero _ = false

abbrev pub next_index : ℤ → ℤ
next_index (pos n) = pos (suc n)
next_index (negsuc zero) = pos 0
next_index (negsuc (suc n)) = negsuc n

module _ {F : Type 0} where
  -- Consecutive places of the array, from index `i` on.
  abbrev pub place : ℤ → List (SensorEvent F) → List (ℤ × SensorEvent F)
  place i [] = []
  place i (e ∷ es) = (i, e) ∷ place (next_index i) es

  abbrev pub consider : PollSensor F → ℤ → Delivery F → PollSensor F
  consider s count x = record s {
    driver = x.driver;
    revents = (if lt_int x.result count then false else s.revents);
  }

  abbrev pub join : List (ℤ × SensorEvent F) → PollSensor F → Option (Scan F) → Option (Scan F)
  join w s none = none
  join w s (some r) = some (record r { sensors = s ∷ r.sensors; written = w ++ r.written })

  -- The `for` loop from sensor `i` on: `none` where a readEvents does not return.
  unfoldable pub scan_sensors :
      (ℕ → ReadOutcome) → (ℕ → ℕ) → ℕ → List (PollSensor F) → ℤ → ℤ → Option (Scan F)
  scan_sensors outcome clock i [] count nb =
      some (record { sensors = []; count = count; nb_events = nb; written = [] })
  scan_sensors outcome clock i (s ∷ ss) count nb = elim (is_zero count) [
    | true ↦ some (record { sensors = s ∷ ss; count = count; nb_events = nb; written = [] })
    | false ↦ elim (s.revents || s.driver.has_pending) [
      | false ↦ join [] s (scan_sensors outcome clock (suc i) ss count nb)
      | true ↦ elim (read_events s.kind s.decode clock (to_room count) (outcome i) s.driver) [
        | none ↦ none
        | some x ↦
            join (place nb x.events) (consider s count x)
              (scan_sensors outcome clock (suc i) ss (count -ℤ x.result) (nb +ℤ x.result))
      ]
    ]
  ]

  -- poll(2) sets `revents` of every descriptor.
  abbrev pub set_revents : List Bool → List (PollSensor F) → List (PollSensor F)
  set_revents [] ss = ss
  set_revents (b ∷ bs) [] = []
  set_revents (b ∷ bs) (s ∷ ss) = record s { revents = b } ∷ set_revents bs ss

  abbrev pub write_first : List (ℤ × SensorEvent F) → Option (PollEnd F) → Option (PollEnd F)
  write_first w none = none
  write_first w (some e) = some (record e { written = w ++ e.written })

  -- The `do` loop: `none` where it still waits behind the last round.
  unfoldable pub poll_events : List PollRound → List (PollSensor F) → ℤ → ℤ → Option (PollEnd F)
  unfolding scan_sensors
  poll_events [] ss count nb = none
  poll_events (r ∷ rs) ss count nb = elim (scan_sensors r.outcome r.clock 0 ss count nb) [
    | none ↦ none
    | some s ↦ elim (is_zero s.count) [
      | true ↦ some (record { result = s.nb_events; sensors = s.sensors; written = s.written })
      | false ↦ elim r.polled [
        | poll_failed errno ↦
            some (record { result = neg errno; sensors = s.sensors; written = s.written })
        | ready zero flags ↦ some (record {
          result = s.nb_events;
          sensors = set_revents flags s.sensors;
          written = s.written;
        })
        | ready (suc n) flags ↦
            write_first s.written (poll_events rs (set_revents flags s.sensors) s.count s.nb_events)
      ]
    ]
  ]

-- `mSensors`, in the order of the enumeration, with the flags of the last call.
module _ (f : FloatApi) where
  open f use {Float}

  unfoldable pub poll_sensors : Context f → List Bool → List (PollSensor Float)
  poll_sensors c flags = set_revents flags (
      record { kind = ev_abs; decode = light_decode f; driver = c.light_sensor; revents = false }
      ∷ record {
        kind = ev_abs;
        decode = proximity_decode f;
        driver = c.proximity_sensor;
        revents = false;
      }
      ∷ record { kind = ev_rel; decode = smb380_decode f; driver = c.bosch_sensor; revents = false }
      ∷ record {
        kind = ev_rel;
        decode = compass_decode f;
        driver = c.yamaha_sensor;
        revents = false;
      }
      ∷ record {
        kind = ev_rel;
        decode = orientation_decode f;
        driver = c.orientation_sensor;
        revents = false;
      }
      ∷ [])
