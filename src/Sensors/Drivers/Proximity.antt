-- ===== src/Sensors/Drivers/Proximity.antt =====
-- The value -1 of the proximity sensor of libsensors.
use android_device_samsung_a.Prelude.{ℕ, ◌-◌, ◌^◌, ◌≡◌, refl, true, some}
use android_device_samsung_a.Prelude.Int.{negsuc}
use android_device_samsung_a.Sensors.Driver.{Values, Driver}
use android_device_samsung_a.Sensors.Drivers.{
  FloatApi, abs_distance, index_to_value, proximity_decode, set_initial_state,
}

-- An event with the value -1 leaves the distance as it was, but where setInitialState reads the value
-- -1, an event is made pending at once whose distance is that of the index 2^32 - 1.
pub minus_one_differs :
    (f : FloatApi) (v : Values f.Float) (type : ℕ) (d : Driver f.Float)
    → (proximity_decode f v (record { type = type; code = abs_distance; value = negsuc 0 }) ≡ v)
      × ((set_initial_state f (some (negsuc 0)) d).has_pending ≡ true)
      × ((set_initial_state f (some (negsuc 0)) d).pending.values.x ≡ index_to_value f (2 ^ 32 - 1))
unfolding proximity_decode set_initial_state
minus_one_differs f v type d = (refl, refl, refl)
