-- ===== src/Sensors/Driver.antt =====
-- What the drivers of libsensors share: their state, and the code of enable, setDelay and readEvents
-- that LightSensor, ProximitySensor, Smb380Sensor, CompassSensor and OrientationSensor each spell out.
pub mod Deliver
pub mod Reads
use android_device_samsung_a.Prelude.{
  ℕ, zero, suc, Bool, true, false, Option, none, some, List, [], ◌∷◌, ◌==◌, length, if◌then◌else◌,
}
use android_device_samsung_a.Prelude.Int.{ℤ, pos, negsuc}
use android_device_samsung_a.Sensors.Reader.{
  InputEvent, EventReader, ReadOutcome, neg, einval, fill, read_event, next,
}

-- The members of the union in `sensors_event_t` that the drivers set: its first three floats.
pub record Values (F : Type 0) : Type 0 where
  pub x : F
  pub y : F
  pub z : F

-- `sensors_event_t` over a type of floats; `status` is that of the magnetic member.
pub record SensorEvent (F : Type 0) : Type 0 where
  pub version : ℕ
  pub sensor : ℕ
  pub type : ℕ
  pub timestamp : ℕ
  pub values : Values F
  pub status : ℕ

-- `enabled` is `mEnabled`. The path in sysfs and the descriptor do not change.
pub record Driver (F : Type 0) : Type 0 where
  pub enabled : ℕ
  pub reader : EventReader
  pub pending : SensorEvent F
  pub has_pending : Bool

-- Event types of linux/input.h.
abbrev pub ev_syn : ℕ
ev_syn = 0

abbrev pub ev_rel : ℕ
ev_rel = 2

abbrev pub ev_abs : ℕ
ev_abs = 3

-- `events` are what was written to the caller's array.
pub record Delivery (F : Type 0) : Type 0 where
  pub result : ℤ
  pub events : List (SensorEvent F)
  pub driver : Driver F

-- `en ? 1 : 0`
abbrev pub flags : ℕ → ℕ
flags en = if en == 0 then 0 else 1

-- The event that the loop goes on with.
abbrev pub available : Bool × Option InputEvent → Option InputEvent
available (true, e) = e
available (false, e) = none

module _ {F : Type 0} where
  -- The result, and the digit written to the file `enable`, if it was opened.
  unfoldable pub enable : Bool → ℕ → Driver F → ℤ × Option ℕ × Driver F
  enable opened en d =
      if flags en == d.enabled
      then (pos 0, none, d)
      else if opened
      then (pos 0, some (flags en), record d { enabled = flags en })
      else (negsuc 0, none, d)

  abbrev pub deliver : Option (SensorEvent F) → List (SensorEvent F) → List (SensorEvent F)
  deliver none es = es
  deliver (some e) es = e ∷ es

  -- The room left after a round that began with `suc n` places.
  abbrev pub room_after : Option (SensorEvent F) → ℕ → ℕ
  room_after none n = suc n
  room_after (some e) n = n

  -- What the loop did, as the function returns it.
  abbrev pub received : Option (List (SensorEvent F) × Driver F) → Option (Delivery F)
  received none = none
  received (some (es, d)) = some (record { result = pos (length es); events = es; driver = d })

  -- `kind` is the event type that carries values, `decode` what the driver does with one, and `now` the
  -- clock, by the number of the round of the loop.
  module _ (kind : ℕ) (decode : Values F → InputEvent → Values F) (now : ℕ → ℕ) where
    -- The body of the loop up to `next`: the event it delivers, if any, and `mPendingEvent`.
    unfoldable pub process : ℕ → Driver F → InputEvent → Option (SensorEvent F) × SensorEvent F
    process i d e =
        let stamped = record d.pending { timestamp = now i } in
        if e.type == kind
        then (none, record d.pending { values = decode d.pending.values e })
        else if e.type == ev_syn
        then ((if d.enabled == 0 then none else some stamped), stamped)
        else (none, d.pending)

    -- The loop with `count` places left in the caller's array: `none` where the fuel runs out.
    unfoldable pub loop : ℕ → ℕ → ℕ → Driver F → Option (List (SensorEvent F) × Driver F)
    unfolding process
    loop fuel i zero d = some ([], d)
    loop zero i (suc n) d = none
    loop (suc fuel) i (suc n) d = elim (available (read_event d.reader)) [
      | none ↦ some ([], d)
      | some e ↦
          let (out, pending) = process i d e in
          elim (loop fuel (suc i) (room_after out n)
            (record d { pending = pending; reader = next d.reader })) [
              | none ↦ none
              | some (es, d') ↦ some (deliver out es, d')
            ]
    ]

    -- A pending event is written whether or not the driver is enabled.
    unfoldable pub deliver_pending : Driver F → Delivery F
    deliver_pending d =
        let stamped = record d.pending { timestamp = now 0 } in
        record {
          result = (if d.enabled == 0 then pos 0 else pos 1);
          events = stamped ∷ [];
          driver = record d { pending = stamped; has_pending = false };
        }

    -- After `fill`. The ring holds no more events than it has places; with one round more the loop sees
    -- that it is empty.
    unfoldable pub read_filled : ℕ → Driver F → ℤ × EventReader → Option (Delivery F)
    unfolding loop
    read_filled count d (negsuc n, r) =
        some (record { result = negsuc n; events = []; driver = record d { reader = r } })
    read_filled count d (pos n, r) =
        received (loop (suc r.buffer_end) 1 count (record d { reader = r }))

    unfoldable pub read_events : ℕ → ReadOutcome → Driver F → Option (Delivery F)
    unfolding read_filled deliver_pending
    read_events count outcome d =
        if count == 0
        then some (record { result = neg einval; events = []; driver = d })
        else if d.has_pending
        then some (deliver_pending d)
        else read_filled count d (fill d.reader outcome)
