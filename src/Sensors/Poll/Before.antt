-- ===== src/Sensors/Poll/Before.antt =====
-- What a failed read does to pollEvents of libsensors/sensors.cpp.
use android_device_samsung_a.Prelude.{
  ℕ, suc, ◌+◌, ◌≤◌, ◌<◌, ◌≡◌, ◌⊎◌, inl, inr, refl, ap, ◌∙◌, ◌||◌, true, false, Option, some, List,
  [], ◌∷◌, ◌++◌, length, arith, Bool-cases,
}
use android_device_samsung_a.Prelude.Int.{ℤ, pos, negsuc, ◌+ℤ◌, ◌-ℤ◌}
use android_device_samsung_a.Sensors.Reader.{InputEvent, ReadOutcome, got}
use android_device_samsung_a.Sensors.Reader.Contents.{IsReader, contents}
use android_device_samsung_a.Sensors.Reader.Queue.{Fits, fill_result}
use android_device_samsung_a.Sensors.Driver.{SensorEvent, Driver, Delivery, read_events}
use android_device_samsung_a.Sensors.Driver.Deliver.{reports, due, reported}
use android_device_samsung_a.Sensors.Driver.Reads.{Reads, read_events_got}
use android_device_samsung_a.Sensors.Poll.{
  PollSensor, Scan, place, consider, join, is_zero, scan_sensors,
}
use android_device_samsung_a.Sensors.Poll.Rounds.{scan_ready, scan_error}

module _ {F : Type 0} where
  -- Sensors with nothing to read.
  abbrev pub AllIdle : List (PollSensor F) → Type 0
  AllIdle [] = Unit
  AllIdle (s ∷ ss) = ((s.revents || s.driver.has_pending) ≡ false) × AllIdle ss

  scan-AllIdle :
      (o : ℕ → ReadOutcome) (clock : ℕ → ℕ) (i : ℕ) (ss : List (PollSensor F)) (count nb : ℤ)
      → AllIdle ss
      → scan_sensors o clock i ss count nb
        ≡ some (record { sensors = ss; count = count; nb_events = nb; written = [] })
  unfolding scan_sensors
  scan-AllIdle o clock i [] count nb idle = refl
  scan-AllIdle o clock i (s ∷ ss) count nb idle = elim (Bool-cases (is_zero count)) [
    | inl z ↦ rw (z, scan_sensors) refl
    | inr z ↦ rw (z, scan_sensors, idle.0, scan-AllIdle o clock (suc i) ss count nb idle.1) refl
  ]

  some_first :
      (s : PollSensor F) (n : ℕ) (fs : List InputEvent) (d : Driver F) (es : List (SensorEvent F))
      → reported s.kind s.decode es ++ due s.kind s.decode d (contents d.reader)
        ≡ due s.kind s.decode s.driver fs
      → (length es ≡ suc n) ⊎ (contents d.reader ≡ [])
      → 0 < length (due s.kind s.decode s.driver fs)
      → (w : SensorEvent F) × (ws : List (SensorEvent F)) × (es ≡ w ∷ ws)
  unfolding reports
  some_first s n fs d (w ∷ ws) split end some_due = (w, ws, refl)
  some_first s n fs d [] split (inl full) some_due = absurd (omega (arith, full))
  some_first s n fs d [] split (inr empty) some_due =
      let none_left : length (due s.kind s.decode d (contents d.reader)) ≡ 0 = rw empty refl in
      absurd (omega (arith, none_left, ap length split, some_due))

  -- Where a report is due and there is room, a report is delivered.
  first_event :
      (s : PollSensor F) (clock : ℕ → ℕ) (n : ℕ) (fs : List InputEvent)
      (result : Option (Delivery F))
      → Reads s.kind s.decode clock (suc n) s.driver fs result
      → 0 < length (due s.kind s.decode s.driver fs)
      → (x : Delivery F) × (w : SensorEvent F) × (ws : List (SensorEvent F)) × (result ≡ some x)
        × (x.events ≡ w ∷ ws)
  first_event s clock n fs result (x, same, res, d) some_due =
      let (w, ws, first) = some_first s n fs x.driver x.events d.2 d.3 some_due in
      (x, w, ws, same, first)

  -- Where pollEvents begins with the read of a sensor that fails or ends within an event, with -(e + 1), and
  -- the next sensor has a report due and is read, the first event that the scan writes goes e + 1 places
  -- before the start of the caller's array. Both sensors are ready, without a pending event and with a sound
  -- ring, the first with space in it; the sensors behind them have nothing to read.
  pub written_before_array :
      (o : ℕ → ReadOutcome) (clock : ℕ → ℕ) (i n e : ℕ) (s t : PollSensor F)
      (ss : List (PollSensor F)) (es : List InputEvent)
      → s.revents ≡ true
      → s.driver.has_pending ≡ false
      → IsReader s.driver.reader
      → Fits s.driver.reader (o i)
      → 0 < s.driver.reader.free_space
      → fill_result (o i) ≡ negsuc e
      → t.revents ≡ true
      → t.driver.has_pending ≡ false
      → IsReader t.driver.reader
      → length es ≤ t.driver.reader.free_space
      → o (suc i) ≡ got es
      → 0 < length (due t.kind t.decode t.driver (contents t.driver.reader ++ es))
      → AllIdle ss
      → (r : Scan F) × (w : SensorEvent F) × (ws : List (ℤ × SensorEvent F)) × (scan_sensors o clock
            i
            (s ∷ t ∷ ss)
            (pos (suc n))
            (pos 0)
          ≡ some r)
        × (r.written ≡ (negsuc e, w) ∷ ws)
  written_before_array o clock i n e s t ss es b hp v fits space err b' hp' v' room brings some_due
        idle =
      let (r, same) = scan_error o clock i n e s (t ∷ ss) b hp v fits space err in
      let more : suc n + suc e ≡ suc (n + suc e) = omega arith in
      let (x, w, ws, reads, first) =
        first_event t clock (n + suc e) (contents t.driver.reader ++ es) _
          (read_events_got t.kind t.decode clock (suc (n + suc e)) t.driver es (omega arith) hp' v'
            room)
          some_due in
      let second =
        scan_ready o clock (suc i) (n + suc e) (negsuc e) t ss x
          (ap (λ q. q || t.driver.has_pending) b')
          (ap (λ q. read_events t.kind t.decode clock (suc (n + suc e)) q t.driver) brings
            ∙ reads) in
      let s' = record s { driver = record s.driver { reader = r }; revents = false } in
      let placed = place (negsuc e) x.events in
      let behind =
        second
        ∙ ap (join placed (consider t (pos (suc (n + suc e))) x)) (
            scan-AllIdle o clock (suc (suc i)) ss (pos (suc (n + suc e)) -ℤ x.result)
              (negsuc e +ℤ x.result) idle) in
      (
        _,
        w,
        _,
        same
            ∙ ap (λ q. join [] s' (scan_sensors o clock (suc i) (t ∷ ss) (pos q) (negsuc e))) more
            ∙ ap (join [] s') behind,
        ap (λ q. place (negsuc e) q ++ []) first,
      )
