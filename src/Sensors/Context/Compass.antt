-- ===== src/Sensors/Context/Compass.antt =====
-- What becomes of the compass where CompassSensor of libsensors/CompassSensor.cpp finds 1 in the member
-- `mEnabled`, which its constructor does not set.
use android_device_samsung_a.Prelude.{
  ℕ, ◌≡◌, ◌≢◌, refl, ◌∙◌, Bool, true, false, Option, none, some, List, [], ◌∷◌, inl, inr,
  Bool-cases, Option-cases, arith,
}
use android_device_samsung_a.Prelude.Int.{ℤ, pos}
use android_device_samsung_a.Sensors.Driver.{Driver, enable}
use android_device_samsung_a.Sensors.Drivers.{FloatApi, compass_enable}
use android_device_samsung_a.Sensors.Context.{
  Slot, light, proximity, bosch, yamaha, orientation, id_a, id_m, id_o, handle_to_driver, Sysfs,
  is_ok, Context, note, enable_sensor, wake_up, real_activate, activate_unless, is_on,
  activate_orientation, activate, new_context,
}
use android_device_samsung_a.Sensors.Context.Invariant.{activate_all}

-- The digits written to the compass's file.
abbrev pub compass_writes : List (Slot × ℕ) → List ℕ
compass_writes [] = []
compass_writes ((yamaha, n) ∷ ws) = n ∷ compass_writes ws
compass_writes (_ ∷ ws) = compass_writes ws

-- Calls that activate and do not deactivate.
abbrev pub AreActivations : List (Sysfs × ℕ × ℕ) → Type 0
AreActivations [] = Unit
AreActivations ((sys, handle, enabled) ∷ calls) = (enabled ≢ 0) × AreActivations calls

module _ (f : FloatApi) where
  -- The compass counts as enabled, and nothing was written to its file.
  abbrev IsForgotten : Context f → Type 0
  IsForgotten c = (c.yamaha_sensor.enabled ≡ 1) × (compass_writes c.writes ≡ [])

  note-other :
      (s : Slot) (digit : Option ℕ) (ws : List (Slot × ℕ))
      → ((n : ℕ) → compass_writes ((s, n) ∷ ws) ≡ compass_writes ws)
      → compass_writes (note f s digit ws) ≡ compass_writes ws
  note-other s none ws other = refl
  note-other s (some n) ws other = other n

  enabled_again :
      (opened : Bool) (en : ℕ) (d : Driver f.Float)
      → en ≢ 0
      → d.enabled ≡ 1
      → enable opened en d ≡ (pos 0, none, d)
  unfolding enable
  enabled_again opened en d nz e = ground (arith, e)

  enable_sensor-IsForgotten :
      (sys : Sysfs) (s : Slot) (en : ℕ) (c : Context f)
      → en ≢ 0
      → IsForgotten c
      → IsForgotten (enable_sensor f sys s en c).1
  unfolding enable_sensor compass_enable
  enable_sensor-IsForgotten sys light en c nz (on, quiet) =
      (on, note-other light _ c.writes (λ n. refl) ∙ quiet)
  enable_sensor-IsForgotten sys proximity en c nz (on, quiet) =
      (on, note-other proximity _ c.writes (λ n. refl) ∙ quiet)
  enable_sensor-IsForgotten sys bosch en c nz (on, quiet) =
      (on, note-other bosch _ c.writes (λ n. refl) ∙ quiet)
  enable_sensor-IsForgotten sys yamaha en c nz (on, quiet) =
      rw (enabled_again (sys.opens yamaha) en c.yamaha_sensor nz on) (on, quiet)
  enable_sensor-IsForgotten sys orientation en c nz (on, quiet) =
      (on, note-other orientation _ c.writes (λ n. refl) ∙ quiet)

  wake_up-IsForgotten :
      (en : ℕ) (r : ℤ × Context f) → IsForgotten r.1 → IsForgotten (wake_up f en r).1
  unfolding wake_up
  wake_up-IsForgotten en (err, c) v = ground arith

  real_activate-IsForgotten :
      (sys : Sysfs) (handle en : ℕ) (c : Context f)
      → en ≢ 0
      → IsForgotten c
      → IsForgotten (real_activate f sys handle en c).1
  unfolding real_activate
  real_activate-IsForgotten sys handle en c nz v = elim (Option-cases (handle_to_driver handle)) [
    | inl n ↦ rw (n, real_activate) v
    | inr (s, n) ↦
        rw (n, real_activate)
          (wake_up-IsForgotten en (enable_sensor f sys s en c)
            (enable_sensor-IsForgotten sys s en c nz v))
  ]

  activate_unless-IsForgotten :
      (active : Bool) (r : ℤ × Context f) (c : Context f) (rest : Context f → ℤ × Context f)
      → IsForgotten r.1
      → IsForgotten c
      → ((k : Context f) → IsForgotten k → IsForgotten (rest k).1)
      → IsForgotten (activate_unless f active r c rest).1
  unfolding activate_unless
  activate_unless-IsForgotten true (err, k) c rest v w keep = keep c w
  activate_unless-IsForgotten false (err, k) c rest v w keep = elim (Bool-cases (is_ok err)) [
    | inl ok ↦ rw ok (keep k v)
    | inr bad ↦ rw bad v
  ]

  activate_orientation-IsForgotten :
      (sys : Sysfs) (en : ℕ) (c : Context f)
      → en ≢ 0
      → IsForgotten c
      → IsForgotten (activate_orientation f sys en c).1
  unfolding activate_orientation
  activate_orientation-IsForgotten sys en c nz v =
      activate_unless-IsForgotten c.accel_active (real_activate f sys id_a en c) c
        (λ c1.
          activate_unless f c1.magnet_active (real_activate f sys id_m en c1) c1
            λ c2. real_activate f sys id_o en c2)
        (real_activate-IsForgotten sys id_a en c nz v) v
        (λ c1 v1.
          activate_unless-IsForgotten c1.magnet_active (real_activate f sys id_m en c1) c1
            (λ c2. real_activate f sys id_o en c2) (real_activate-IsForgotten sys id_m en c1 nz v1)
            v1 (λ c2 v2. real_activate-IsForgotten sys id_o en c2 nz v2))

  activate-IsForgotten :
      (sys : Sysfs) (handle en : ℕ) (c : Context f)
      → en ≢ 0
      → IsForgotten c
      → IsForgotten (activate f sys handle en c).1
  unfolding activate
  activate-IsForgotten sys handle en c nz v = ground (
    arith,
    activate_orientation-IsForgotten sys en (record c { orientation_active = is_on f en }) nz v,
    real_activate-IsForgotten sys id_a en (record c { accel_active = is_on f en }) nz v,
    real_activate-IsForgotten sys id_m en (record c { magnet_active = is_on f en }) nz v,
    real_activate-IsForgotten sys handle en c nz v,
  )

  activate_all-IsForgotten :
      (calls : List (Sysfs × ℕ × ℕ)) (c : Context f)
      → AreActivations calls
      → IsForgotten c
      → IsForgotten (activate_all f calls c)
  unfolding activate_all
  activate_all-IsForgotten [] c on v = v
  activate_all-IsForgotten ((sys, handle, en) ∷ calls) c on v =
      activate_all-IsForgotten calls (activate f sys handle en c).1 on.1
        (activate-IsForgotten sys handle en c on.0 v)

  magnetic-ok : (sys : Sysfs) (c : Context f) → IsForgotten c → (activate f sys id_m 1 c).0 ≡ pos 0
  unfolding activate real_activate handle_to_driver enable_sensor compass_enable wake_up
  magnetic-ok sys c v =
      rw (enabled_again (sys.opens yamaha) 1 c.yamaha_sensor (λ e. omega arith) v.0)
        (elim (Bool-cases c.orientation_active) [ inl e ↦ rw e refl | inr e ↦ rw e refl ])

  -- Where CompassSensor happens to find 1 in `mEnabled`, nothing is written to the compass's file by any
  -- calls of activate after the constructor that all activate sensors and deactivate none, whatever files
  -- can be opened, nor by an activation of the magnetic sensor behind them, which returns 0 all the same.
  pub compass_stays_off :
      (sys later : Sysfs) (version : ℕ) (calls : List (Sysfs × ℕ × ℕ))
      → AreActivations calls
      → let c = activate_all f calls (new_context f sys version 1) in
        (compass_writes c.writes ≡ [])
        × ((activate f later id_m 1 c).0 ≡ pos 0)
        × (compass_writes (activate f later id_m 1 c).1.writes ≡ [])
  unfolding new_context
  compass_stays_off sys later version calls on =
      let v = activate_all-IsForgotten calls (new_context f sys version 1) on (refl, refl) in
      let c = activate_all f calls (new_context f sys version 1) in
      (v.1, magnetic-ok later c v, (activate-IsForgotten later id_m 1 c (λ e. omega arith) v).1)
