-- ===== src/Sensors/Gyro.antt =====
-- GyroSensor of libsensors/GyroSensor.cpp, whose readEvents reads again where it has no whole event.
pub mod Spin
use android_device_samsung_a.Prelude.{
  ℕ, zero, suc, ◌+◌, ◌&&◌, Bool, true, false, Option, none, some, List, [], ◌∷◌, ◌==◌,
  if◌then◌else◌,
}
use android_device_samsung_a.Prelude.Int.{ℤ, pos, negsuc}
use android_device_samsung_a.Sensors.Reader.{
  InputEvent, EventReader, ReadOutcome, neg, einval, fill,
}
use android_device_samsung_a.Sensors.Driver.{
  Values, SensorEvent, Driver, Delivery, ev_rel, received, enable, loop, deliver_pending,
}
use android_device_samsung_a.Sensors.Drivers.{FloatApi, write_delay}

-- REL_RX, REL_RY and REL_RZ of linux/input.h.
abbrev rel_rx : ℕ
rel_rx = 3

abbrev rel_ry : ℕ
rel_ry = 4

abbrev rel_rz : ℕ
rel_rz = 5

abbrev pub is_nothing : ℤ → Bool
is_nothing (pos zero) = true
is_nothing _ = false

abbrev pub empty {ℓ} : {A : Type ℓ} → List A → Bool
empty [] = true
empty (x ∷ xs) = false

unfoldable pub gyro_set_delay : Bool → ℕ → ℤ × Option ℕ
gyro_set_delay opened delay_ns = write_delay opened delay_ns

module _ (f : FloatApi) where
  open f use {Float, lit, of_int, times, over, m_pi, minus}

  abbrev pub convert_gyro : Float
  convert_gyro = times (over (lit 70) (lit 1000)) (over m_pi (lit 180))

  unfoldable pub gyro_decode : Values Float → InputEvent → Values Float
  gyro_decode v e =
      let value = of_int e.value in
      if e.code == rel_ry
      then record v { x = times value convert_gyro }
      else if e.code == rel_rx
      then record v { y = times value (minus convert_gyro) }
      else if e.code == rel_rz
      then record v { z = times value convert_gyro }
      else v

  -- `absinfo` are the answers of the three calls of ioctl(2), all three for the x axis; the first one is
  -- used for each axis.
  unfoldable pub gyro_initial_state : Option (ℤ × ℤ × ℤ) → Driver Float → Driver Float
  gyro_initial_state none d = d
  gyro_initial_state (some (absinfo_x, absinfo_y, absinfo_z)) d = record d {
    has_pending = true;
    pending = record d.pending {
      values = record {
        x = times (of_int absinfo_x) convert_gyro;
        y = times (of_int absinfo_x) (minus convert_gyro);
        z = times (of_int absinfo_x) convert_gyro;
      };
    };
  }

  abbrev pub then_gyro_initial :
      Option (ℤ × ℤ × ℤ) → ℤ × Option ℕ × Driver Float → ℤ × Option ℕ × Driver Float
  then_gyro_initial absinfo (n, none, d) = (n, none, d)
  then_gyro_initial absinfo (n, some k, d) = (n, some k, gyro_initial_state absinfo d)

  unfoldable pub gyro_enable :
      Bool → Option (ℤ × ℤ × ℤ) → ℕ → Driver Float → ℤ × Option ℕ × Driver Float
  unfolding enable gyro_initial_state
  gyro_enable opened absinfo en d = then_gyro_initial absinfo (enable opened en d)

  -- `numEventReceived == 0 && mEnabled == 1`
  abbrev pub reads_again : List (SensorEvent Float) → Driver Float → Bool
  reads_again es d = if empty es then d.enabled == 1 else false

  module _ (now : ℕ → ℕ) where
    -- From the label `again` on. `outcomes` are what the further calls of read(2) do; `none` where the
    -- function has not returned behind the last one.
    unfoldable pub gyro_again : List ReadOutcome → ℕ → ℕ → Driver Float → Option (Delivery Float)
    unfolding loop gyro_decode
    gyro_again [] i count d =
        elim (loop ev_rel gyro_decode now (suc d.reader.buffer_end) i count d) [
          | none ↦ none
          | some (es, d') ↦ if reads_again es d' then none else received (some (es, d'))
        ]
    gyro_again (o ∷ os) i count d =
        elim (loop ev_rel gyro_decode now (suc d.reader.buffer_end) i count d) [
          | none ↦ none
          | some (es, d') ↦ elim (reads_again es d') [
            | false ↦ received (some (es, d'))
            | true ↦ elim (is_nothing (fill d'.reader o).0) [
              | true ↦ some (record {
                result = pos 0;
                events = [];
                driver = record d' { reader = (fill d'.reader o).1 };
              })
              | false ↦
                  gyro_again os (i + suc d.reader.buffer_end) count
                    (record d' { reader = (fill d'.reader o).1 })
            ]
          ]
        ]

    -- After the first `fill`.
    unfoldable pub gyro_filled :
        List ReadOutcome → ℕ → Driver Float → ℤ × EventReader → Option (Delivery Float)
    unfolding gyro_again
    gyro_filled os count d (negsuc n, r) =
        some (record { result = negsuc n; events = []; driver = record d { reader = r } })
    gyro_filled os count d (pos n, r) = gyro_again os 1 count (record d { reader = r })

    -- `outcome` is what the first call of read(2) does.
    unfoldable pub gyro_read_events :
        ℕ → ReadOutcome → List ReadOutcome → Driver Float → Option (Delivery Float)
    unfolding gyro_filled deliver_pending
    gyro_read_events count outcome os d =
        if count == 0
        then some (record { result = neg einval; events = []; driver = d })
        else if d.has_pending
        then some (deliver_pending ev_rel gyro_decode now d)
        else gyro_filled os count d (fill d.reader outcome)
