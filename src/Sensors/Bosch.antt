-- ===== src/Sensors/Bosch.antt =====
-- BoschYamaha of libsensors/BoschYamaha.cpp: the driver that reads the accelerometer and the compass, each
-- from a ring of its own, and computes the orientation from both.
pub mod Orientation
pub mod Loop
pub mod Reads
pub mod Overrun
mod Tests
use android_device_samsung_a.Prelude.{
  ℕ, zero, suc, ◌-◌, Bool, true, false, not, ◌&&◌, ◌||◌, Option, none, some, List, [], ◌∷◌, ◌++◌,
  ◌==◌, length, if◌then◌else◌,
}
use android_device_samsung_a.Prelude.Int.{ℤ, pos, negsuc}
use android_device_samsung_a.Sensors.Reader.{
  InputEvent, EventReader, ReadOutcome, neg, einval, fill, read_event, next, new_reader,
}
use android_device_samsung_a.Sensors.Driver.{
  Values, SensorEvent, ev_syn, ev_abs, flags, available, deliver, room_after,
}
use android_device_samsung_a.Sensors.Drivers.{FloatApi, smb380_decode, compass_decode}
use android_device_samsung_a.Sensors.Context.{id_a, id_m, id_o}
use android_device_samsung_a.Sensors.Bosch.Orientation.{MathApi, process_orientation}

-- What the class keeps once for the accelerometer and once for the compass: accelEnabled, mInputReaderAccel,
-- mPendingEvents[Accelerometer], accelLastRead, accelDataReady and the like.
pub record Half (F : Type 0) : Type 0 where
  pub enabled : ℕ
  pub reader : EventReader
  pub pending : SensorEvent F
  pub last_read : Values F
  pub data_ready : ℕ

-- `orientation` is mPendingEvents[Orientation], `delays` mDelays of the three sensors.
pub record BoschYamaha (F : Type 0) : Type 0 where
  pub magnetic : Half F
  pub accel : Half F
  pub orientation : SensorEvent F
  pub delay_a : ℕ
  pub delay_m : ℕ
  pub delay_o : ℕ

-- The result, the events written to the caller's array, and the driver.
pub record Outcome (F : Type 0) : Type 0 where
  pub result : ℤ
  pub events : List (SensorEvent F)
  pub driver : BoschYamaha F

module _ {F : Type 0} where
  abbrev pub half_done :
      Option (List (SensorEvent F) × Half F) → Option (ℤ × List (SensorEvent F) × Half F)
  half_done none = none
  half_done (some (es, h)) = some (pos 0, es, h)

  module _ (decode : Values F → InputEvent → Values F) (now : ℕ → ℕ) where
    -- The body of the loop up to `next`.
    unfoldable pub process_half : ℕ → Half F → InputEvent → Option (SensorEvent F) × Half F
    process_half i h e =
        let stamped = record h.pending { timestamp = now i } in
        if e.type == ev_abs
        then (none, record h { pending = record h.pending { values = decode h.pending.values e } })
        else if e.type == ev_syn
        then (if h.enabled == 0 then (none, record h { pending = stamped }) else (
          some stamped,
          record h { pending = stamped; last_read = stamped.values; data_ready = 1 },
        ))
        else (none, h)

    -- The loop with `count` places left: `none` where the fuel runs out.
    unfoldable pub loop_half : ℕ → ℕ → ℕ → Half F → Option (List (SensorEvent F) × Half F)
    unfolding process_half
    loop_half fuel i zero h = some ([], h)
    loop_half zero i (suc n) h = none
    loop_half (suc fuel) i (suc n) h = elim (available (read_event h.reader)) [
      | none ↦ some ([], h)
      | some e ↦
          let (out, h1) = process_half i h e in
          elim (loop_half fuel (suc i) (room_after out n) (record h1 { reader = next h.reader })) [
            | none ↦ none
            | some (es, h2) ↦ some (deliver out es, h2)
          ]
    ]

    -- After `fill`: its result where that is an error, which readEvents returns at once.
    unfoldable pub filled_half :
        ℕ → Half F → ℤ × EventReader → Option (ℤ × List (SensorEvent F) × Half F)
    unfolding loop_half
    filled_half count h (negsuc n, r) = some (negsuc n, [], record h { reader = r })
    filled_half count h (pos n, r) =
        half_done (loop_half (suc r.buffer_end) 1 count (record h { reader = r }))

    -- `if (compassEnabled) { … }`, and the same for the accelerometer.
    unfoldable pub read_half : ℕ → ReadOutcome → Half F → Option (ℤ × List (SensorEvent F) × Half F)
    unfolding filled_half
    read_half count outcome h =
        if h.enabled == 0 then some (pos 0, [], h) else filled_half count h (fill h.reader outcome)

module _ (f : FloatApi) (m : MathApi f) where
  open f use {Float}

  abbrev pub both_ready : BoschYamaha Float → Bool
  both_ready b = (b.accel.data_ready == 1) && (b.magnetic.data_ready == 1)

  -- The end of readEvents: the orientation goes behind the events, whatever room there is.
  unfoldable pub finish : List (SensorEvent Float) → BoschYamaha Float → Outcome Float
  unfolding process_orientation
  finish es b =
      let o = process_orientation f m b.accel.last_read b.magnetic.last_read b.orientation in
      if both_ready b
      then record {
        result = pos (length (es ++ (o ∷ [])));
        events = es ++ (o ∷ []);
        driver = record b {
          accel = record b.accel { data_ready = 0 };
          magnetic = record b.magnetic { data_ready = 0 };
          orientation = o;
        };
      }
      else record { result = pos (length es); events = es; driver = b }

  -- Behind the accelerometer's half.
  unfoldable pub after_accel :
      List (SensorEvent Float)
      → BoschYamaha Float
      → Option (ℤ × List (SensorEvent Float) × Half Float)
      → Option (Outcome Float)
  unfolding finish
  after_accel ms b none = none
  after_accel ms b (some (negsuc n, es, a)) =
      some (record { result = negsuc n; events = ms; driver = record b { accel = a } })
  after_accel ms b (some (pos n, es, a)) = some (finish (ms ++ es) (record b { accel = a }))

  module _ (now_m now_a : ℕ → ℕ) where
    -- Behind the compass's half.
    unfoldable pub after_magnetic :
        ℕ
        → ReadOutcome
        → BoschYamaha Float
        → Option (ℤ × List (SensorEvent Float) × Half Float)
        → Option (Outcome Float)
    unfolding after_accel read_half
    after_magnetic count oa b none = none
    after_magnetic count oa b (some (negsuc n, ms, h)) =
        some (record { result = negsuc n; events = []; driver = record b { magnetic = h } })
    after_magnetic count oa b (some (pos n, ms, h)) =
        after_accel ms (record b { magnetic = h })
          (read_half (smb380_decode f) now_a (count - length ms) oa b.accel)

    -- `om` and `oa` are what read(2) does for the compass and for the accelerometer.
    unfoldable pub bosch_read_events :
        ℕ → ReadOutcome → ReadOutcome → BoschYamaha Float → Option (Outcome Float)
    unfolding after_magnetic read_half
    bosch_read_events count om oa b =
        if count == 0
        then some (record { result = neg einval; events = []; driver = b })
        else after_magnetic count oa b (read_half (compass_decode f) now_m count om b.magnetic)

-- Whether a handle is one of the three sensors.
abbrev is_handle : ℕ → Bool
is_handle handle = (handle == id_a) || (handle == id_m) || (handle == id_o)

module _ {F : Type 0} where
  unfoldable pub has_pending_events : BoschYamaha F → Bool
  has_pending_events b = not (b.accel.enabled == 0) || not (b.magnetic.enabled == 0)

  -- The result, and the digit written to the file `enable` of the accelerometer, if it was opened. The
  -- compass has no such code, the source has it in a comment.
  unfoldable pub bosch_enable : Bool → ℕ → ℕ → BoschYamaha F → ℤ × Option ℕ × BoschYamaha F
  bosch_enable opened handle en b =
      if is_handle handle
      then (if (handle == id_a) && not (flags en == b.accel.enabled) && opened
          then (pos 0, some (flags en), record b { accel = record b.accel { enabled = flags en } })
          else (pos 0, none, b))
      else (neg einval, none, b)

  unfoldable pub bosch_set_delay : ℕ → ℤ → BoschYamaha F → ℤ × BoschYamaha F
  bosch_set_delay handle (negsuc n) b = (neg einval, b)
  bosch_set_delay handle (pos ns) b =
      if handle == id_a
      then (pos 0, record b { delay_a = ns })
      else if handle == id_m
      then (pos 0, record b { delay_m = ns })
      else if handle == id_o
      then (pos 0, record b { delay_o = ns })
      else (neg einval, b)

  -- The destructor.
  unfoldable pub bosch_destroy : Bool → BoschYamaha F → Option ℕ × BoschYamaha F
  unfolding bosch_enable
  bosch_destroy opened b =
      let (_, _, b1) = bosch_enable opened id_m 0 b in
      let b2 = if b.magnetic.enabled == 0 then b else b1 in
      let (_, digit, b3) = bosch_enable opened id_a 0 b2 in
      if b2.accel.enabled == 0 then (none, b2) else (digit, b3)

module _ (f : FloatApi) where
  open f use {Float, lit}

  abbrev pub blank_values : Values Float
  blank_values = record { x = lit 0; y = lit 0; z = lit 0 }

  -- An entry of mPendingEvents behind memset; the accuracy is SENSOR_STATUS_ACCURACY_HIGH.
  abbrev pub new_pending : ℕ → ℕ → ℕ → SensorEvent Float
  new_pending version sensor type = record {
    version = version;
    sensor = sensor;
    type = type;
    timestamp = 0;
    values = blank_values;
    status = 3;
  }

  -- The constructor. `m` and `a` hold what the memory has in the members that it does not set: enabled,
  -- last_read and data_ready. `fd` is whether data_fd is not 0, as it is also where openInput fails.
  unfoldable pub new_bosch_yamaha :
      Bool → Bool → ℕ → Half Float → Half Float → Option ℕ × BoschYamaha Float
  unfolding bosch_enable new_reader
  new_bosch_yamaha fd opened version m a =
      let half_a = record a { reader = new_reader 4; pending = new_pending version id_a 1 } in
      let half_m = record m { reader = new_reader 4; pending = new_pending version id_m 2 } in
      let b : BoschYamaha Float = record {
        magnetic = half_m;
        accel = half_a;
        orientation = new_pending version id_o 3;
        delay_a = 200000000;
        delay_m = 200000000;
        delay_o = 200000000;
      } in
      let (_, digit, b') = bosch_enable opened id_a 1 b in if fd then (digit, b') else (none, b)
