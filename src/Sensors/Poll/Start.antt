-- ===== src/Sensors/Poll/Start.antt =====
-- The drivers that the constructor of libsensors/sensors.cpp makes are fit for pollEvents.
use android_device_samsung_a.Prelude.{
  ℕ, ◌≡◌, ◌⊎◌, inl, inr, refl, Bool, true, false, Option, none, some, List, [], ◌∷◌, arith,
}
use android_device_samsung_a.Prelude.Int.{ℤ}
use android_device_samsung_a.Sensors.Reader.{new_reader}
use android_device_samsung_a.Sensors.Reader.Contents.{IsReader, new_reader-IsReader}
use android_device_samsung_a.Sensors.Driver.{Driver, enable}
use android_device_samsung_a.Sensors.Drivers.{
  FloatApi, new_driver, light_enable, proximity_enable, set_initial_state,
}
use android_device_samsung_a.Sensors.Context.{proximity, light, id_l, id_p, Sysfs, new_context}
use android_device_samsung_a.Sensors.Poll.{PollSensor, set_revents, poll_sensors}
use android_device_samsung_a.Sensors.Poll.Rounds.{AllSound}

module _ {F : Type 0} where
  set_revents-AllSound :
      (flags : List Bool) (ss : List (PollSensor F)) → AllSound ss → AllSound (set_revents flags ss)
  set_revents-AllSound [] ss a = a
  set_revents-AllSound (b ∷ bs) [] a = tt
  set_revents-AllSound (b ∷ bs) (s ∷ ss) (v, a) = (v, set_revents-AllSound bs ss a)

ring : IsReader (new_reader 4)
ring = new_reader-IsReader 4 (omega arith)

abbrev IsFit : {F : Type 0} → Driver F → Type 0
IsFit d = IsReader d.reader × ((d.has_pending ≡ false) ⊎ (d.enabled ≡ 1))

light_lem :
    (f : FloatApi) (opened : Bool) (version : ℕ)
    → IsFit (light_enable f opened 1 (new_driver f version id_l 5 0)).2
unfolding light_enable enable
light_lem f true version = (ring, inl refl)
light_lem f false version = (ring, inl refl)

proximity_lem :
    (f : FloatApi) (opened : Bool) (absinfo : Option ℤ) (version : ℕ)
    → IsFit (proximity_enable f opened absinfo 1 (new_driver f version id_p 8 0)).2
unfolding proximity_enable enable set_initial_state
proximity_lem f true none version = (ring, inl refl)
proximity_lem f true (some value) version = (ring, inr refl)
proximity_lem f false absinfo version = (ring, inl refl)

-- Whatever files can be opened, whatever the proximity sensor answers and whatever CompassSensor finds in
-- `mEnabled`: behind the constructor every driver has a sound ring and, unless it is enabled, no pending
-- event, as pollEvents needs it, whatever the flags of the descriptors.
pub new_context-AllSound :
    (f : FloatApi) (sys : Sysfs) (version garbage : ℕ) (flags : List Bool)
    → AllSound (poll_sensors f (new_context f sys version garbage) flags)
unfolding poll_sensors new_context
new_context-AllSound f sys version garbage flags = set_revents-AllSound flags _ (
  light_lem f (sys.opens light) version,
  (
    proximity_lem f (sys.opens proximity) sys.absinfo version,
    ((ring, inl refl), ((ring, inl refl), ((ring, inl refl), tt))),
  ),
)
