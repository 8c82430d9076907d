-- ===== src/Sensors/Context/Active.antt =====
-- What activate of libsensors/sensors.cpp switches, step by step.
use android_device_samsung_a.Prelude.{
  ℕ, ◌≡◌, inl, inr, ap, ◌∙◌, Bool, true, false, ◌||◌, Option, none, some, ◌==◌, if◌then◌else◌,
  Bool-cases, arith,
}
use android_device_samsung_a.Prelude.Int.{ℤ, pos}
use android_device_samsung_a.Sensors.Driver.{Driver, enable, flags}
use android_device_samsung_a.Sensors.Drivers.{
  FloatApi, smb380_enable, compass_enable, orientation_enable, then_daemon,
}
use android_device_samsung_a.Sensors.Context.{
  Slot, bosch, yamaha, orientation, id_a, id_m, id_o, handle_to_driver, Sysfs, is_ok, Context,
  enable_sensor, wake_up, real_activate, activate_unless, activate_orientation,
}

-- Every file `enable` can be opened.
abbrev pub AllOpen : Sysfs → Type 0
AllOpen sys = (s : Slot) → sys.opens s ≡ true

abbrev pub on : Bool → ℕ
on b = if b then 1 else 0

module _ (f : FloatApi) where
  -- The three drivers' `mEnabled`, and the three flags.
  abbrev pub View : Type 0
  View = ℕ × ℕ × ℕ × Bool × Bool × Bool

  abbrev pub view : Context f → View
  view c = (
    c.bosch_sensor.enabled, c.yamaha_sensor.enabled, c.orientation_sensor.enabled, c.accel_active,
    c.magnet_active, c.orientation_active,
  )

  -- The accelerometer is on exactly when the system or the orientation sensor uses it, the magnetic
  -- sensor likewise, and the orientation sensor exactly when the system uses it.
  abbrev pub IsBalanced : View → Type 0
  IsBalanced (b, y, o, accel, magnet, orient) =
      (b ≡ on (accel || orient)) × (y ≡ on (magnet || orient)) × (o ≡ on orient)

  abbrev pub IsActive : Context f → Type 0
  IsActive c = IsBalanced (view c)

  -- A call that succeeded and left the view `v`.
  abbrev pub Leaves : View → ℤ × Context f → Type 0
  Leaves v r = (r.0 ≡ pos 0) × (view r.1 ≡ v)

  pub wake_up-Leaves :
      (en : ℕ) (v : View) (r : ℤ × Context f) → Leaves v r → Leaves v (wake_up f en r)
  unfolding wake_up
  wake_up-Leaves en v (err, c) l = elim (Bool-cases (en == 0)) [
    | inl z ↦ rw z l
    | inr z ↦
        rw z
          (elim (Bool-cases (is_ok err)) [ inl k ↦ rw (k, wake_up) l | inr k ↦ rw (k, wake_up) l ])
  ]

  Enables : ℕ → ℤ × Option ℕ × Driver f.Float → Type 0
  Enables en r = (r.0 ≡ pos 0) × (r.2.enabled ≡ flags en)

  enable-Enables :
      (opened : Bool) (en : ℕ) (d : Driver f.Float)
      → opened ≡ true
      → Enables en (enable opened en d)
  unfolding enable Enables
  enable-Enables opened en d o = ground arith

  then_daemon-Enables :
      (en : ℕ) (r : ℤ × Option ℕ × Driver f.Float)
      → Enables en r
      → ((then_daemon f r).0 ≡ pos 0) × ((then_daemon f r).3.enabled ≡ flags en)
  unfolding Enables
  then_daemon-Enables en (n, none, d) e = e
  then_daemon-Enables en (n, some k, d) e = e

  -- Each of the three is switched as asked, and nothing else.
  pub switch_a :
      (sys : Sysfs) (en : ℕ) (c : Context f)
      → sys.opens bosch ≡ true
      → Leaves
          (
            flags en,
            c.yamaha_sensor.enabled,
            c.orientation_sensor.enabled,
            c.accel_active,
            c.magnet_active,
            c.orientation_active,
          )
          (real_activate f sys id_a en c)
  unfolding real_activate enable_sensor handle_to_driver smb380_enable Enables
  switch_a sys en c o =
      let (ok, b) = enable-Enables (sys.opens bosch) en c.bosch_sensor o in
      wake_up-Leaves en _ (enable_sensor f sys bosch en c) (ok, ap shown b)
    where
      shown : ℕ → View
      shown b = (
        b, c.yamaha_sensor.enabled, c.orientation_sensor.enabled, c.accel_active, c.magnet_active,
        c.orientation_active,
      )

  pub switch_m :
      (sys : Sysfs) (en : ℕ) (c : Context f)
      → sys.opens yamaha ≡ true
      → Leaves
          (
            c.bosch_sensor.enabled,
            flags en,
            c.orientation_sensor.enabled,
            c.accel_active,
            c.magnet_active,
            c.orientation_active,
          )
          (real_activate f sys id_m en c)
  unfolding real_activate enable_sensor handle_to_driver compass_enable Enables
  switch_m sys en c o =
      let (ok, b) = enable-Enables (sys.opens yamaha) en c.yamaha_sensor o in
      wake_up-Leaves en _ (enable_sensor f sys yamaha en c) (ok, ap shown b)
    where
      shown : ℕ → View
      shown y = (
        c.bosch_sensor.enabled, y, c.orientation_sensor.enabled, c.accel_active, c.magnet_active,
        c.orientation_active,
      )

  switch_o :
      (sys : Sysfs) (en : ℕ) (c : Context f)
      → sys.opens orientation ≡ true
      → Leaves
          (
            c.bosch_sensor.enabled,
            c.yamaha_sensor.enabled,
            flags en,
            c.accel_active,
            c.magnet_active,
            c.orientation_active,
          )
          (real_activate f sys id_o en c)
  unfolding real_activate enable_sensor handle_to_driver orientation_enable
  switch_o sys en c o =
      let (ok, b) =
        then_daemon-Enables en (enable (sys.opens orientation) en c.orientation_sensor)
          (enable-Enables (sys.opens orientation) en c.orientation_sensor o) in
      wake_up-Leaves en _ (enable_sensor f sys orientation en c) (ok, ap shown b)
    where
      shown : ℕ → View
      shown x = (
        c.bosch_sensor.enabled, c.yamaha_sensor.enabled, x, c.accel_active, c.magnet_active,
        c.orientation_active,
      )

  unless-Leaves :
      (active : Bool) (r : ℤ × Context f) (c : Context f) (rest : Context f → ℤ × Context f)
      (v : Bool → View)
      → Leaves (v true) (rest c)
      → r.0 ≡ pos 0
      → Leaves (v false) (rest r.1)
      → Leaves (v active) (activate_unless f active r c rest)
  unfolding activate_unless
  unless-Leaves true r c rest v t ok e = t
  unless-Leaves false (n, c') c rest v t ok e = rw ok e

  -- The view after each of the three steps of activating the orientation sensor.
  abbrev with_o : ℕ → View → View
  with_o en w = (w.0, w.1, flags en, w.3, w.4, w.5)

  abbrev with_m : ℕ → Bool → View → View
  with_m en m w = (w.0, (if m then w.1 else flags en), flags en, w.3, w.4, w.5)

  abbrev pub with_a : ℕ → Bool → View → View
  with_a en a w =
      ((if a then w.0 else flags en), (if w.4 then w.1 else flags en), flags en, w.3, w.4, w.5)

  orientation_step :
      (sys : Sysfs) (en : ℕ) (c : Context f)
      → AllOpen sys
      → Leaves (with_m en c.magnet_active (view c)) (
          activate_unless f c.magnet_active
            (real_activate f sys id_m en c)
            c
            (real_activate f sys id_o en))
  orientation_step sys en c o =
      let (ok, m) = switch_m sys en c (o yamaha) in
      let c' = (real_activate f sys id_m en c).1 in
      let (ok', x) = switch_o sys en c' (o orientation) in
      unless-Leaves c.magnet_active (real_activate f sys id_m en c) c (real_activate f sys id_o en)
        (λ a. with_m en a (view c)) (switch_o sys en c (o orientation)) ok
        (ok', x ∙ ap (with_o en) m)

  pub activate_orientation_lem :
      (sys : Sysfs) (en : ℕ) (c : Context f)
      → AllOpen sys
      → Leaves (with_a en c.accel_active (view c)) (activate_orientation f sys en c)
  unfolding activate_orientation
  activate_orientation_lem sys en c o =
      let (ok, m) = switch_a sys en c (o bosch) in
      let c' = (real_activate f sys id_a en c).1 in
      let (ok', x) = orientation_step sys en c' o in
      unless-Leaves c.accel_active (real_activate f sys id_a en c) c
        (λ c'.
          activate_unless f c'.magnet_active (real_activate f sys id_m en c') c'
            λ c''. real_activate f sys id_o en c'')
        (λ a. with_a en a (view c)) (orientation_step sys en c o) ok
        (ok', x ∙ ap (λ w. with_m en w.4 w) m)
