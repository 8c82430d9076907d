-- ===== src/Sensors/Context.antt =====
-- `sensors_poll_context_t` of libsensors/sensors.cpp: which drivers are active, and for whom.
pub mod Active
pub mod Invariant
pub mod Compass
use android_device_samsung_a.Prelude.{
  ℕ, zero, suc, Bool, true, false, Option, none, some, List, [], ◌∷◌, ◌==◌, if◌then◌else◌,
}
use android_device_samsung_a.Prelude.Int.{ℤ, pos, negsuc}
use android_device_samsung_a.Sensors.Reader.{neg, einval}
use android_device_samsung_a.Sensors.Driver.{Driver}
use android_device_samsung_a.Sensors.Drivers.{
  FloatApi, new_driver, light_enable, proximity_enable, smb380_enable, compass_enable,
  orientation_enable, light_set_delay, smb380_set_delay, compass_set_delay, orientation_set_delay,
}

-- The index of a driver in `mSensors`.
pub data Slot : Type 0 where
  light proximity bosch yamaha orientation : Slot

-- ID_A, ID_M, ID_O, ID_L and ID_P of sensors.h.
abbrev pub id_a : ℕ
id_a = 0

abbrev pub id_m : ℕ
id_m = 1

abbrev pub id_o : ℕ
id_o = 2

abbrev pub id_l : ℕ
id_l = 3

abbrev pub id_p : ℕ
id_p = 4

-- A negative handle is as good as any other that has no driver.
unfoldable pub handle_to_driver : ℕ → Option Slot
handle_to_driver handle =
    if handle == id_a
    then some bosch
    else if handle == id_m
    then some yamaha
    else if handle == id_o
    then some orientation
    else if handle == id_p
    then some proximity
    else if handle == id_l
    then some light
    else none

-- Whether a driver's file in sysfs can be opened, and what the ioctl of the proximity sensor answers.
pub record Sysfs : Type 0 where
  pub opens : Slot → Bool
  pub absinfo : Option ℤ

-- Where err is 0.
abbrev pub is_ok : ℤ → Bool
is_ok (pos n) = n == 0
is_ok (negsuc n) = false

module _ (f : FloatApi) where
  open f use {Float}

  -- `wakes` counts the messages in the wake pipe, `writes` is what went to the files `enable` since
  -- the constructor, the latest first. The poll descriptors are those of the drivers.
  pub record Context : Type 0 where
    pub light_sensor : Driver Float
    pub proximity_sensor : Driver Float
    pub bosch_sensor : Driver Float
    pub yamaha_sensor : Driver Float
    pub orientation_sensor : Driver Float
    pub accel_active : Bool
    pub magnet_active : Bool
    pub orientation_active : Bool
    pub wakes : ℕ
    pub writes : List (Slot × ℕ)

  abbrev pub note : Slot → Option ℕ → List (Slot × ℕ) → List (Slot × ℕ)
  note s none ws = ws
  note s (some n) ws = (s, n) ∷ ws

  -- The virtual call `mSensors[index]->enable`.
  unfoldable pub enable_sensor : Sysfs → Slot → ℕ → Context → ℤ × Context
  unfolding light_enable smb380_enable compass_enable
  enable_sensor sys light en c =
      let (err, digit, d) = light_enable f (sys.opens light) en c.light_sensor in
      (err, record c { light_sensor = d; writes = note light digit c.writes })
  enable_sensor sys proximity en c =
      let (err, digit, d) =
        proximity_enable f (sys.opens proximity) sys.absinfo en c.proximity_sensor in
      (err, record c { proximity_sensor = d; writes = note proximity digit c.writes })
  enable_sensor sys bosch en c =
      let (err, digit, d) = smb380_enable f (sys.opens bosch) en c.bosch_sensor in
      (err, record c { bosch_sensor = d; writes = note bosch digit c.writes })
  enable_sensor sys yamaha en c =
      let (err, digit, d) = compass_enable f (sys.opens yamaha) en c.yamaha_sensor in
      (err, record c { yamaha_sensor = d; writes = note yamaha digit c.writes })
  enable_sensor sys orientation en c =
      let (err, digit, daemon, d) =
        orientation_enable f (sys.opens orientation) en c.orientation_sensor in
      (err, record c { orientation_sensor = d; writes = note orientation digit c.writes })

  -- The wake message follows an enabling that succeeded.
  unfoldable pub wake_up : ℕ → ℤ × Context → ℤ × Context
  wake_up enabled (err, c) =
      if enabled == 0
      then (err, c)
      else if is_ok err
      then (err, record c { wakes = suc c.wakes })
      else (err, c)

  unfoldable pub real_activate : Sysfs → ℕ → ℕ → Context → ℤ × Context
  unfolding enable_sensor wake_up
  real_activate sys handle enabled c = elim (handle_to_driver handle) [
    | none ↦ (neg einval, c)
    | some s ↦ wake_up enabled (enable_sensor sys s enabled c)
  ]

  -- `if (!active) { err = real_activate(…); if (err) return err; }`, then the rest.
  unfoldable pub activate_unless :
      Bool → ℤ × Context → Context → (Context → ℤ × Context) → ℤ × Context
  activate_unless active (err, c') c rest =
      if active then rest c else if is_ok err then rest c' else (err, c')

  abbrev pub is_on : ℕ → Bool
  is_on enabled = if enabled == 0 then false else true

  -- Orientation enables or disables what it needs, unless the system itself uses it.
  unfoldable pub activate_orientation : Sysfs → ℕ → Context → ℤ × Context
  unfolding real_activate activate_unless
  activate_orientation sys enabled c =
      activate_unless c.accel_active (real_activate sys id_a enabled c) c λ c'.
        activate_unless c'.magnet_active (real_activate sys id_m enabled c') c'
          λ c''. real_activate sys id_o enabled c''

  unfoldable pub activate : Sysfs → ℕ → ℕ → Context → ℤ × Context
  unfolding real_activate activate_orientation
  activate sys handle enabled c =
      if handle == id_o
      then activate_orientation sys enabled (record c { orientation_active = is_on enabled })
      else if handle == id_a
      then (if c.orientation_active
          then (pos 0, record c { accel_active = is_on enabled })
          else real_activate sys id_a enabled (record c { accel_active = is_on enabled }))
      else if handle == id_m
      then (if c.orientation_active
          then (pos 0, record c { magnet_active = is_on enabled })
          else real_activate sys id_m enabled (record c { magnet_active = is_on enabled }))
      else real_activate sys handle enabled c

  -- The result, and what was written to a file `delay` or `poll_delay`: the proximity sensor takes the
  -- empty setDelay of SensorBase.
  unfoldable pub set_delay : Sysfs → ℕ → ℕ → ℤ × Option ℕ
  unfolding light_set_delay smb380_set_delay compass_set_delay orientation_set_delay
  set_delay sys handle ns = elim (handle_to_driver handle) [
    | none ↦ (neg einval, none)
    | some light ↦ light_set_delay (sys.opens light) ns
    | some proximity ↦ (pos 0, none)
    | some bosch ↦ smb380_set_delay (sys.opens bosch) ns
    | some yamaha ↦ compass_set_delay (sys.opens yamaha) ns
    | some orientation ↦ orientation_set_delay (sys.opens orientation) ns
  ]

  -- The constructor. LightSensor and ProximitySensor enable themselves; `version` is
  -- sizeof(sensors_event_t), the other numbers the IDs and the types of hardware/sensors.h; `garbage` is
  -- what `mEnabled` of CompassSensor holds, which its constructor does not set.
  unfoldable pub new_context : Sysfs → ℕ → ℕ → Context
  unfolding light_enable
  new_context sys version garbage = record {
    light_sensor = (light_enable f (sys.opens light) 1 (new_driver f version id_l 5 0)).2;
    proximity_sensor =
        (proximity_enable f (sys.opens proximity) sys.absinfo 1 (new_driver f version id_p 8 0)).2;
    bosch_sensor = new_driver f version id_a 1 0;
    yamaha_sensor = new_driver f version id_m 2 garbage;
    orientation_sensor = new_driver f version id_o 3 0;
    accel_active = false;
    magnet_active = false;
    orientation_active = false;
    wakes = 0;
    writes = [];
  }
