-- ===== src/Sensors/Bosch/Orientation.antt =====
-- The orientation of libsensors/BoschYamaha.cpp: processOrientation, get_rotation_matrix, get_euler and
-- calc_intensity. The arrays that they are given are members and locals, never NULL.
use android_device_samsung_a.Prelude.{Bool, ◌||◌, Option, none, some, if◌then◌else◌}
use android_device_samsung_a.Sensors.Driver.{Values, SensorEvent}
use android_device_samsung_a.Sensors.Drivers.{FloatApi}

-- The further arithmetic of `float`, and math.h: `degrees` is `x *= 180.0 / M_PI`, `trunc` is
-- `(float)(int)x`, `is_zero` is `x == 0`, `lt` the order.
pub record MathApi (f : FloatApi) : Type 0 where
  pub plus : f.Float → f.Float → f.Float
  pub sub : f.Float → f.Float → f.Float
  pub sqrt : f.Float → f.Float
  pub atan2 : f.Float → f.Float → f.Float
  pub asin : f.Float → f.Float
  pub degrees : f.Float → f.Float
  pub trunc : f.Float → f.Float
  pub is_zero : f.Float → Bool
  pub lt : f.Float → f.Float → Bool

-- The nine floats, a row at a time.
pub record Matrix (F : Type 0) : Type 0 where
  pub row_1 : Values F
  pub row_2 : Values F
  pub row_3 : Values F

module _ (f : FloatApi) (m : MathApi f) where
  open f use {Float, lit, times, over, minus}
  open m use {plus, sub, sqrt, atan2, asin, degrees, trunc, is_zero, lt}

  abbrev zeros : Values Float
  zeros = record { x = lit 0; y = lit 0; z = lit 0 }

  abbrev negated : Values Float → Values Float
  negated v = record { x = minus v.x; y = minus v.y; z = minus v.z }

  abbrev divided : Float → Values Float → Values Float
  divided k v = record { x = over v.x k; y = over v.y k; z = over v.z k }

  abbrev cross : Values Float → Values Float → Values Float
  cross a b = record {
    x = sub (times a.y b.z) (times a.z b.y);
    y = sub (times a.z b.x) (times a.x b.z);
    z = sub (times a.x b.y) (times a.y b.x);
  }

  unfoldable pub calc_intensity : Values Float → Float
  calc_intensity v = sqrt (plus (plus (times v.x v.x) (times v.y v.y)) (times v.z v.z))

  -- From the unit vectors `gdata`, `mdata` and `adata` on.
  unfoldable third_axis : Values Float → Values Float → Option (Matrix Float)
  unfolding calc_intensity
  third_axis g a =
      let b = cross a g in
      let intensity = calc_intensity b in
      if is_zero intensity
      then none
      else some (record { row_1 = a; row_2 = divided intensity b; row_3 = negated g })

  -- From `gdata` and `mdata` on.
  unfoldable second_axis : Values Float → Values Float → Option (Matrix Float)
  unfolding calc_intensity third_axis
  second_axis g v =
      let a = cross g v in
      let intensity = calc_intensity a in
      if is_zero intensity then none else third_axis g (divided intensity a)

  -- `none` is the result -1.
  unfoldable pub get_rotation_matrix : Values Float → Values Float → Option (Matrix Float)
  unfolding calc_intensity second_axis
  get_rotation_matrix gs ms =
      let g = calc_intensity gs in
      let k = calc_intensity ms in
      if is_zero g || is_zero k then none else second_axis (divided g (negated gs)) (divided k ms)

  -- `-180 - pitch` where the device faces down, and once around where that is too low.
  abbrev faced_down : Float → Float
  faced_down pitch =
      let p = sub (minus (lit 180)) pitch in if lt p (minus (lit 180)) then plus p (lit 360) else p

  unfoldable pub get_euler : Matrix Float → Values Float
  get_euler r =
      let yaw = degrees (atan2 (sub r.row_1.y r.row_2.x) (plus r.row_1.x r.row_2.y)) in
      let pitch = degrees (minus (asin r.row_3.y)) in
      let roll = degrees (asin r.row_3.x) in
      record {
        x = trunc (if lt yaw (lit 0) then plus yaw (lit 360) else yaw);
        y = trunc (if lt r.row_3.z (lit 0) then faced_down pitch else pitch);
        z = trunc roll;
      }

  unfoldable pub euler_of : Option (Matrix Float) → Values Float
  unfolding get_euler
  euler_of none = zeros
  euler_of (some r) = get_euler r

  -- mPendingEvents[Orientation] with the angles; its time stamp stays.
  unfoldable pub process_orientation :
      Values Float → Values Float → SensorEvent Float → SensorEvent Float
  unfolding get_rotation_matrix euler_of
  process_orientation accel compass o =
      let e = euler_of (get_rotation_matrix accel compass) in
      record o { values = record { x = trunc e.x; y = trunc e.y; z = trunc e.z } }
