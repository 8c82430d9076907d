-- ===== src/Sensors/Driver/Deliver.antt =====
-- What readEvents delivers of the events that the kernel reports.
use android_device_samsung_a.Prelude.{
  ℕ, zero, suc, ◌≤◌, ◌<◌, ◌≡◌, ◌⊎◌, inl, inr, refl, ap, ◌∙◌, Bool, true, false, Option, none, some,
  List, [], ◌∷◌, ◌++◌, ◌==◌, if◌then◌else◌, length, arith,
}
use android_device_samsung_a.Sensors.Reader.{InputEvent, read_event, next}
use android_device_samsung_a.Sensors.Reader.Contents.{used, IsReader, contents}
use android_device_samsung_a.Sensors.Reader.Queue.{next_lem}
use android_device_samsung_a.Sensors.Driver.{
  Values, SensorEvent, Driver, ev_syn, available, process, loop, deliver, room_after,
}

available-none : (p : Bool × Option InputEvent) → p.0 ≡ false → available p ≡ none
available-none (true, e) h = cc
available-none (false, e) h = refl

module _ {F : Type 0} (kind : ℕ) (decode : Values F → InputEvent → Values F) where
  -- What a sequence of kernel events asks a driver to report, from the values it has: one report of the
  -- latest values at each EV_SYN, and none where the driver is not enabled.
  unfoldable pub reports : ℕ → ℕ → Values F → List InputEvent → List (ℕ × Values F)
  reports en sensor v [] = []
  reports en sensor v (e ∷ es) =
      if e.type == kind
      then reports en sensor (decode v e) es
      else if e.type == ev_syn
      then (if en == 0 then reports en sensor v es else (sensor, v) ∷ reports en sensor v es)
      else reports en sensor v es

  -- The reports still to come of a driver whose ring holds `es`.
  abbrev pub due : Driver F → List InputEvent → List (ℕ × Values F)
  due d es = reports d.enabled d.pending.sensor d.pending.values es

  abbrev pub reported : List (SensorEvent F) → List (ℕ × Values F)
  reported [] = []
  reported (e ∷ es) = (e.sensor, e.values) ∷ reported es

  -- Up to `n` reports were delivered, in order; the others are due of the events that are left; and
  -- where there is room left no event is.
  abbrev pub Delivers : ℕ → Driver F → List InputEvent → List (SensorEvent F) → Driver F → Type 0
  Delivers n d es out d' =
      IsReader d'.reader
      × (length out ≤ n)
      × (reported out ++ due d' (contents d'.reader) ≡ due d es)
      × ((length out ≡ n) ⊎ (contents d'.reader ≡ []))
      × (d'.enabled ≡ d.enabled)
      × (d'.has_pending ≡ d.has_pending)

  deliver_more :
      (n : ℕ) (out : Option (SensorEvent F)) (d : Driver F) (e : InputEvent) (d' d'' : Driver F)
      (es : List InputEvent) (more : List (SensorEvent F))
      → reported (deliver out []) ++ due d' es ≡ due d (e ∷ es)
      → d'.enabled ≡ d.enabled
      → d'.has_pending ≡ d.has_pending
      → Delivers (room_after out n) d' es more d''
      → Delivers (suc n) d (e ∷ es) (deliver out more) d''
  deliver_more n none d e d' d'' es more p q r (v, l, due_eq, end, en, hp) =
      (v, l, due_eq ∙ p, end, en ∙ q, hp ∙ r)
  deliver_more n (some x) d e d' d'' es more p q r (v, l, due_eq, end, en, hp) =
      (v, omega arith, ap (λ q. (x.sensor, x.values) ∷ q) due_eq ∙ p, full, en ∙ q, hp ∙ r)
    where
      full : (suc (length more) ≡ suc n) ⊎ (contents d''.reader ≡ [])
      full = elim end [ inl h ↦ inl (ap suc h) | inr h ↦ inr h ]

  module _ (now : ℕ → ℕ) where
    -- The driver after one round of the loop.
    abbrev stepped : ℕ → Driver F → InputEvent → Driver F
    stepped i d e = record d { pending = (process kind decode now i d e).1; reader = next d.reader }

    due-process :
        (i : ℕ) (d : Driver F) (e : InputEvent) (es : List InputEvent)
        → reported (deliver (process kind decode now i d e).0 []) ++ due (stepped i d e) es
          ≡ due d (e ∷ es)
    unfolding process reports
    due-process i d e es = ground arith

    abbrev pub Loops : ℕ → Driver F → Option (List (SensorEvent F) × Driver F) → Type 0
    Loops n d result =
        (out : List (SensorEvent F)) × (d' : Driver F) × (result ≡ some (out, d'))
        × Delivers n d (contents d.reader) out d'

    pub loop_lem :
        (fuel i n : ℕ) (d : Driver F)
        → IsReader d.reader
        → used d.reader < fuel
        → Loops n d (loop kind decode now fuel i n d)
    unfolding loop
    loop_lem fuel i zero d v f = ([], d, refl, (v, omega arith, refl, inl refl, refl, refl))
    loop_lem zero i (suc n) d v f = absurd (omega arith)
    loop_lem (suc fuel) i (suc n) d v f = elim (next_lem d.reader v) [
      | inl (nothing, empty) ↦
          rw (available-none (read_event d.reader) nothing, loop)
            ([], d, refl, (v, omega arith, refl, inr empty, refl, refl))
      | inr (e, found, v', fewer, cs) ↦
          let out = (process kind decode now i d e).0 in
          let d' = stepped i d e in
          let (more, d'', same, w) = loop_lem fuel (suc i) (room_after out n) d' v' (omega arith) in
          rw (found, loop, same)
            (
              deliver out more,
              d'',
              refl,
              rw cs (
                  deliver_more n out d e d' d'' (contents (next d.reader)) more
                    (due-process i d e (contents (next d.reader))) refl refl w),
            )
    ]
