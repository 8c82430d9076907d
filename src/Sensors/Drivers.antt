-- ===== src/Sensors/Drivers.antt =====
-- LightSensor, ProximitySensor, Smb380Sensor, CompassSensor and OrientationSensor of libsensors: what
-- each does with an event, with enable and with setDelay. The numbers come from sensors.h.
pub mod Delays
pub mod Proximity
use android_device_samsung_a.Prelude.{
  ℕ, zero, suc, ◌+◌, ◌-◌, ◌*◌, ◌/◌, ◌%◌, ◌^◌, Bool, true, false, Option, none, some, List, ◌==◌,
  ltb, if◌then◌else◌,
}
use android_device_samsung_a.Prelude.Int.{ℤ, pos, negsuc}
use android_device_samsung_a.Sensors.Reader.{InputEvent, ReadOutcome, new_reader}
use android_device_samsung_a.Sensors.Driver.{
  Values, SensorEvent, Driver, Delivery, ev_rel, ev_abs, enable, read_events,
}

-- The arithmetic of `float`: `lit n` is the literal `n.0f`, `of_int` and `of_size` convert, and
-- `gravity_earth` is the constant of hardware/sensors.h, `m_pi` that of
-- math.h.
pub record FloatApi : Type 1 where
  pub Float : Type 0
  pub lit : ℕ → Float
  pub of_int : ℤ → Float
  pub of_size : ℕ → Float
  pub times : Float → Float → Float
  pub over : Float → Float → Float
  pub powf : Float → Float → Float
  pub gravity_earth : Float
  pub m_pi : Float
  pub minus : Float → Float

-- Codes of linux/input.h.
abbrev axis_x : ℕ
axis_x = 0

abbrev axis_y : ℕ
axis_y = 1

abbrev axis_z : ℕ
axis_z = 2

abbrev pub abs_distance : ℕ
abs_distance = 25

abbrev pub abs_misc : ℕ
abs_misc = 40

-- `int` to the 32-bit `size_t`.
abbrev pub to_size_t : ℤ → ℕ
to_size_t (pos n) = n
to_size_t (negsuc n) = 2 ^ 32 - suc n

-- What Smb380Sensor and OrientationSensor write to the file `delay`, in milliseconds.
unfoldable pub delay_ms : ℕ → ℕ
delay_ms ns = (if ltb ns 10000000 then 10000000 else ns) / 10000000 * 10

-- What CompassSensor writes.
unfoldable pub compass_delay : ℕ → ℕ
compass_delay ns =
    if ltb ns 20000000
    then 1
    else if ltb ns 60000000
    then 20
    else if ltb ns 200000000
    then 60
    else if ltb ns 1000000000
    then 200
    else 1000

-- The result of setDelay, and what it wrote, by whether the file was opened.
abbrev pub write_delay : Bool → ℕ → ℤ × Option ℕ
write_delay true n = (pos 0, some n)
write_delay false n = (negsuc 0, none)

unfoldable pub light_set_delay : Bool → ℕ → ℤ × Option ℕ
light_set_delay opened ns = write_delay opened ns

unfoldable pub smb380_set_delay : Bool → ℕ → ℤ × Option ℕ
unfolding delay_ms
smb380_set_delay opened ns = write_delay opened (delay_ms ns)

unfoldable pub orientation_set_delay : Bool → ℕ → ℤ × Option ℕ
unfolding delay_ms
orientation_set_delay opened ns = write_delay opened (delay_ms ns)

unfoldable pub compass_set_delay : Bool → ℕ → ℤ × Option ℕ
unfolding compass_delay
compass_set_delay opened ns = write_delay opened (compass_delay ns)

module _ (f : FloatApi) where
  open f use {Float, lit, of_int, of_size, times, over, powf, gravity_earth}

  -- One of three codes sets the axis of its name, any other nothing.
  abbrev pub set_axis : Float → Values Float → InputEvent → Values Float
  set_axis scale v e =
      let value = times (of_int e.value) scale in
      if e.code == axis_x
      then record v { x = value }
      else if e.code == axis_y
      then record v { y = value }
      else if e.code == axis_z
      then record v { z = value }
      else v

  unfoldable pub smb380_decode : Values Float → InputEvent → Values Float
  smb380_decode = set_axis (over (times (lit 2) gravity_earth) (lit 512))

  unfoldable pub compass_decode : Values Float → InputEvent → Values Float
  compass_decode = set_axis (over (lit 1) (lit 1000))

  -- Azimuth, pitch and roll.
  unfoldable pub orientation_decode : Values Float → InputEvent → Values Float
  orientation_decode = set_axis (over (lit 1) (lit 1000))

  -- The illuminance stands in the first float.
  unfoldable pub light_decode : Values Float → InputEvent → Values Float
  light_decode v e =
      let exponent = times (of_int e.value) (over (over (lit 330) (lit 4095)) (lit 47)) in
      if e.code == abs_misc then record v { x = times (powf (lit 10) exponent) (lit 4) } else v

  unfoldable pub index_to_value : ℕ → Float
  index_to_value index = times (of_size index) (lit 5)

  -- The value -1 is passed over.
  unfoldable pub proximity_decode : Values Float → InputEvent → Values Float
  unfolding index_to_value
  proximity_decode v e =
      let distance = record v { x = index_to_value (to_size_t e.value) } in
      if e.code == abs_distance then elim e.value [ negsuc zero ↦ v | _ ↦ distance ] else v

  abbrev pub light_read_events : (ℕ → ℕ) → ℕ → ReadOutcome → Driver Float → Option (Delivery Float)
  light_read_events = read_events ev_abs light_decode

  abbrev pub proximity_read_events :
      (ℕ → ℕ) → ℕ → ReadOutcome → Driver Float → Option (Delivery Float)
  proximity_read_events = read_events ev_abs proximity_decode

  abbrev pub smb380_read_events : (ℕ → ℕ) → ℕ → ReadOutcome → Driver Float → Option (Delivery Float)
  smb380_read_events = read_events ev_rel smb380_decode

  abbrev pub compass_read_events :
      (ℕ → ℕ) → ℕ → ReadOutcome → Driver Float → Option (Delivery Float)
  compass_read_events = read_events ev_rel compass_decode

  abbrev pub orientation_read_events :
      (ℕ → ℕ) → ℕ → ReadOutcome → Driver Float → Option (Delivery Float)
  orientation_read_events = read_events ev_rel orientation_decode

  -- The state that the constructors set up: sizeof(sensors_event_t), the sensor's ID and type, and the
  -- status of the magnetic member, which the later `memset` of the data clears.
  abbrev pub new_driver : ℕ → ℕ → ℕ → ℕ → Driver Float
  new_driver version sensor type enabled = record {
    enabled = enabled;
    reader = new_reader 4;
    pending = record {
      version = version;
      sensor = sensor;
      type = type;
      timestamp = 0;
      values = record { x = lit 0; y = lit 0; z = lit 0 };
      status = 0;
    };
    has_pending = false;
  }

  -- setInitialState, by the answer of the ioctl.
  unfoldable pub set_initial_state : Option ℤ → Driver Float → Driver Float
  unfolding index_to_value
  set_initial_state none d = d
  set_initial_state (some value) d = record d {
    has_pending = true;
    pending = record d.pending {
      values = record d.pending.values { x = index_to_value (to_size_t value) };
    };
  }

  -- ProximitySensor::enable goes on with setInitialState where it wrote the file.
  abbrev pub then_initial : Option ℤ → ℤ × Option ℕ × Driver Float → ℤ × Option ℕ × Driver Float
  then_initial absinfo (n, none, d) = (n, none, d)
  then_initial absinfo (n, some k, d) = (n, some k, set_initial_state absinfo d)

  unfoldable pub proximity_enable : Bool → Option ℤ → ℕ → Driver Float → ℤ × Option ℕ × Driver Float
  unfolding enable set_initial_state
  proximity_enable opened absinfo en d = then_initial absinfo (enable opened en d)

  -- OrientationSensor::enable also starts or stops orientationd: `some true` and `some false`.
  abbrev pub then_daemon : ℤ × Option ℕ × Driver Float → ℤ × Option ℕ × Option Bool × Driver Float
  then_daemon (n, none, d) = (n, none, none, d)
  then_daemon (n, some k, d) = (n, some k, some (if d.enabled == 0 then false else true), d)

  unfoldable pub orientation_enable :
      Bool → ℕ → Driver Float → ℤ × Option ℕ × Option Bool × Driver Float
  unfolding enable
  orientation_enable opened en d = then_daemon (enable opened en d)

  unfoldable pub light_enable : Bool → ℕ → Driver Float → ℤ × Option ℕ × Driver Float
  unfolding enable
  light_enable = enable

  unfoldable pub smb380_enable : Bool → ℕ → Driver Float → ℤ × Option ℕ × Driver Float
  unfolding enable
  smb380_enable = enable

  unfoldable pub compass_enable : Bool → ℕ → Driver Float → ℤ × Option ℕ × Driver Float
  unfolding enable
  compass_enable = enable
