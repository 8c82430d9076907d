-- ===== src/Sensors/Context/Invariant.antt =====
-- Which sensors are on after any calls of activate of libsensors/sensors.cpp, and when this fails.
use android_device_samsung_a.Prelude.{
  ℕ, ◌≡◌, ◌⊎◌, inl, inr, refl, ap, subst, ◌∙◌, sym, Bool, true, false, none, some, List, [], ◌∷◌,
  ◌==◌, if◌then◌else◌, Bool-cases, arith,
}
use android_device_samsung_a.Prelude.Int.{ℤ, pos, negsuc}
use android_device_samsung_a.Sensors.Driver.{Driver, enable}
use android_device_samsung_a.Sensors.Drivers.{FloatApi, smb380_enable}
use android_device_samsung_a.Sensors.Context.{
  light, proximity, bosch, yamaha, id_a, id_m, id_o, handle_to_driver, Sysfs, is_ok, Context,
  enable_sensor, wake_up, real_activate, activate_unless, is_on, activate_orientation, activate,
  new_context,
}
use android_device_samsung_a.Sensors.Context.Active.{
  AllOpen, View, view, IsBalanced, IsActive, Leaves, with_a, switch_a, switch_m,
  activate_orientation_lem,
}

module _ (f : FloatApi) where
  Leaves-IsActive :
      (v : View f) (r : ℤ × Context f) → Leaves f v r → IsBalanced f v → IsActive f r.1
  Leaves-IsActive v r l b = subst (IsBalanced f) (sym l.1) b

  view-wake_up : (en : ℕ) (r : ℤ × Context f) → view f (wake_up f en r).1 ≡ view f r.1
  unfolding wake_up
  view-wake_up en (err, c) = elim (Bool-cases (en == 0)) [
    | inl z ↦ rw z refl
    | inr z ↦ rw z (elim (Bool-cases (is_ok err)) [
      | inl k ↦ rw (k, wake_up) refl
      | inr k ↦ rw (k, wake_up) refl
    ])
  ]

  -- The light and the proximity sensor, and handles without a driver.
  other_handle :
      (handle : ℕ)
      → (handle == id_o) ≡ false
      → (handle == id_a) ≡ false
      → (handle == id_m) ≡ false
      → (handle_to_driver handle ≡ some proximity)
        ⊎ ((handle_to_driver handle ≡ some light) ⊎ (handle_to_driver handle ≡ none))
  unfolding handle_to_driver
  other_handle handle o a m = ground arith

  view-real_activate :
      (sys : Sysfs) (handle en : ℕ) (c : Context f)
      → (handle == id_o) ≡ false
      → (handle == id_a) ≡ false
      → (handle == id_m) ≡ false
      → view f (real_activate f sys handle en c).1 ≡ view f c
  unfolding enable_sensor real_activate
  view-real_activate sys handle en c o a m = elim (other_handle handle o a m) [
    | inl p ↦ rw (p, real_activate) (view-wake_up en (enable_sensor f sys proximity en c))
    | inr (inl l) ↦ rw (l, real_activate) (view-wake_up en (enable_sensor f sys light en c))
    | inr (inr n) ↦ rw (n, real_activate) refl
  ]

  chosen :
      (b : Bool) (p q : ℤ × Context f)
      → (b ≡ true → IsActive f p.1)
      → (b ≡ false → IsActive f q.1)
      → IsActive f (if b then p else q).1
  chosen true p q t e = t refl
  chosen false p q t e = e refl

  activate_a :
      (sys : Sysfs) (en : ℕ) (c : Context f)
      → AllOpen sys
      → IsActive f c
      → IsActive f (activate f sys id_a en c).1
  unfolding activate
  activate_a sys en c o v =
      let c' = record c { accel_active = is_on f en } in
      chosen c.orientation_active (pos 0, c') (real_activate f sys id_a en c') (λ t. ground arith)
        λ t.
          Leaves-IsActive _ (real_activate f sys id_a en c') (switch_a f sys en c' (o bosch))
            (ground arith)

  activate_m :
      (sys : Sysfs) (en : ℕ) (c : Context f)
      → AllOpen sys
      → IsActive f c
      → IsActive f (activate f sys id_m en c).1
  unfolding activate
  activate_m sys en c o v =
      let c' = record c { magnet_active = is_on f en } in
      chosen c.orientation_active (pos 0, c') (real_activate f sys id_m en c') (λ t. ground arith)
        λ t.
          Leaves-IsActive _ (real_activate f sys id_m en c') (switch_m f sys en c' (o yamaha))
            (ground arith)

  activate_o :
      (sys : Sysfs) (en : ℕ) (c : Context f)
      → AllOpen sys
      → IsActive f c
      → IsActive f (activate f sys id_o en c).1
  unfolding activate
  activate_o sys en c o v =
      let c' = record c { orientation_active = is_on f en } in
      Leaves-IsActive (with_a f en c.accel_active (view f c')) (activate_orientation f sys en c')
        (activate_orientation_lem f sys en c' o) (ground arith)

  activate_other :
      (sys : Sysfs) (handle en : ℕ) (c : Context f)
      → (handle == id_o) ≡ false
      → (handle == id_a) ≡ false
      → (handle == id_m) ≡ false
      → activate f sys handle en c ≡ real_activate f sys handle en c
  unfolding activate
  activate_other sys handle en c o a m = rw (o, a, m) refl

  -- Where every driver's file can be opened, a call of activate, for any handle, keeps it so that the
  -- accelerometer is on exactly when the system or the orientation sensor uses it, the magnetic sensor
  -- likewise, and the orientation sensor exactly when the system uses it.
  pub activate-IsActive :
      (sys : Sysfs) (handle en : ℕ) (c : Context f)
      → AllOpen sys
      → IsActive f c
      → IsActive f (activate f sys handle en c).1
  activate-IsActive sys handle en c op v = elim (Bool-cases (handle == id_o)) [
    | inl o ↦ at id_o (ground arith) (activate_o sys en c op v)
    | inr o ↦ elim (Bool-cases (handle == id_a)) [
      | inl a ↦ at id_a (ground arith) (activate_a sys en c op v)
      | inr a ↦ elim (Bool-cases (handle == id_m)) [
        | inl m ↦ at id_m (ground arith) (activate_m sys en c op v)
        | inr m ↦
            subst (IsBalanced f)
              (sym (
                ap (λ r. view f r.1) (activate_other sys handle en c o a m)
                ∙ view-real_activate sys handle en c o a m))
              v
      ]
    ]
  ]
    where
      at :
          (h : ℕ)
          → handle ≡ h
          → IsActive f (activate f sys h en c).1
          → IsActive f (activate f sys handle en c).1
      at h e w = subst (λ h. IsActive f (activate f sys h en c).1) (sym e) w

  -- A sequence of calls of activate, each with the files as they are then.
  unfoldable pub activate_all : List (Sysfs × ℕ × ℕ) → Context f → Context f
  activate_all [] c = c
  activate_all ((sys, handle, enabled) ∷ calls) c =
      activate_all calls (activate f sys handle enabled c).1

  abbrev pub AllCallsOpen : List (Sysfs × ℕ × ℕ) → Type 0
  AllCallsOpen [] = Unit {0}
  AllCallsOpen ((sys, handle, enabled) ∷ calls) = AllOpen sys × AllCallsOpen calls

  activate_all-IsActive :
      (calls : List (Sysfs × ℕ × ℕ)) (c : Context f)
      → AllCallsOpen calls
      → IsActive f c
      → IsActive f (activate_all calls c)
  unfolding activate_all
  activate_all-IsActive [] c o v = v
  activate_all-IsActive ((sys, handle, en) ∷ calls) c o v =
      activate_all-IsActive calls (activate f sys handle en c).1 o.1
        (activate-IsActive sys handle en c o.0 v)

  -- From the constructor on, where CompassSensor happens to find 0 in `mEnabled` and every driver's file
  -- can be opened at each call, any sequence of calls of activate leaves the accelerometer on
  -- exactly when the system or the orientation sensor uses it, the magnetic sensor likewise, and the
  -- orientation sensor exactly when the system uses it.
  pub activate_all_lem :
      (sys : Sysfs) (version : ℕ) (calls : List (Sysfs × ℕ × ℕ))
      → AllCallsOpen calls
      → IsActive f (activate_all calls (new_context f sys version 0))
  unfolding new_context
  activate_all_lem sys version calls o =
      activate_all-IsActive calls (new_context f sys version 0) o (refl, refl, refl)

  enable_refused :
      (opened : Bool) (d : Driver f.Float)
      → opened ≡ false
      → d.enabled ≡ 0
      → enable opened 1 d ≡ (negsuc 0, none, d)
  unfolding enable
  enable_refused opened d o e = rw (o, e) refl

  orientation_refused :
      (sys : Sysfs) (c : Context f)
      → sys.opens bosch ≡ false
      → c.accel_active ≡ false
      → c.bosch_sensor.enabled ≡ 0
      → activate_orientation f sys 1 c ≡ (negsuc 0, c)
  unfolding activate_orientation real_activate handle_to_driver enable_sensor smb380_enable
      activate_unless wake_up
  orientation_refused sys c o a b = rw (a, enable_refused (sys.opens bosch) c.bosch_sensor o b) refl

  -- Where the system uses neither the accelerometer nor the orientation sensor and the accelerometer is
  -- off, an activation of the orientation sensor that cannot open the accelerometer's file returns -1,
  -- and the next activation of the accelerometer returns 0, whatever files can be opened then, but writes
  -- nothing and leaves the accelerometer off.
  pub accelerometer_stays_off :
      (sys later : Sysfs) (c : Context f)
      → sys.opens bosch ≡ false
      → c.accel_active ≡ false
      → c.bosch_sensor.enabled ≡ 0
      → let (err, c') = activate f sys id_o 1 c in
        let (err', c'') = activate f later id_a 1 c' in
        (err ≡ negsuc 0)
        × (err' ≡ pos 0)
        × (c''.accel_active ≡ true)
        × (c''.bosch_sensor.enabled ≡ 0)
        × (c''.writes ≡ c.writes)
  unfolding activate
  accelerometer_stays_off sys later c o a b =
      let c' = record c { orientation_active = true } in
      rw (orientation_refused sys c' o a b) (refl, refl, refl, b, refl)
