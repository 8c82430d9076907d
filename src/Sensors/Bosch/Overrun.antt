-- ===== src/Sensors/Bosch/Overrun.antt =====
-- The room of the caller's array in readEvents of libsensors/BoschYamaha.cpp.
use android_device_samsung_a.Prelude.{
  ℕ, suc, ◌+◌, ◌-◌, ◌<◌, ◌≤◌, ◌≡◌, ◌∙◌, inl, inr, refl, ap, true, some, List, [], ◌∷◌, ◌++◌, length,
  length-append, arith,
}
use android_device_samsung_a.Prelude.Int.{pos}
use android_device_samsung_a.Sensors.Reader.{InputEvent, got}
use android_device_samsung_a.Sensors.Reader.Contents.{IsReader, contents}
use android_device_samsung_a.Sensors.Driver.{Values, SensorEvent, ev_abs}
use android_device_samsung_a.Sensors.Driver.Deliver.{due}
use android_device_samsung_a.Sensors.Drivers.{FloatApi, smb380_decode, compass_decode}
use android_device_samsung_a.Sensors.Bosch.Orientation.{MathApi}
use android_device_samsung_a.Sensors.Bosch.{
  Half, BoschYamaha, Outcome, both_ready, bosch_read_events,
}
use android_device_samsung_a.Sensors.Bosch.Loop.{as_driver, Takes}
use android_device_samsung_a.Sensors.Bosch.Reads.{
  Ends, Takes-length, ready_after-some, bosch_read_events-Reads,
}

-- The number of reports that a half has due, with the events `es` in its ring.
abbrev pub count_due :
    {F : Type 0} → (Values F → InputEvent → Values F) → Half F → List InputEvent → ℕ
count_due decode h es = length (due ev_abs decode (as_driver h) es)

Takes-data_ready :
    {F : Type 0} (decode : Values F → InputEvent → Values F) (n : ℕ) (h : Half F)
    (es : List InputEvent) (out : List (SensorEvent F)) (h' : Half F)
    → Takes decode n h es out h'
    → 0 < length out
    → h'.data_ready ≡ 1
Takes-data_ready decode n h es out h' w some_out = w.5 ∙ ready_after-some h.data_ready out some_out

module _ (f : FloatApi) (m : MathApi f) where
  open f use {Float}

  Ends-joint :
      (es : List (SensorEvent Float)) (b : BoschYamaha Float) (x : Outcome Float)
      → Ends f m es b x
      → both_ready f m b ≡ true
      → length x.events ≡ suc (length es)
  Ends-joint es b x (inl (ready, o, same, events, driver)) both =
      ap length events ∙ length-append es (o ∷ []) ∙ omega arith
  Ends-joint es b x (inr (waiting, same, rest)) both = cc

  -- readEvents of BoschYamaha writes one event more than the caller's array holds, and returns that number,
  -- where the compass has at least one report due but fewer than there is room for, and both sensors have
  -- together at least as many due as there is room for. The reads are as in
  -- Sensors.Bosch.Reads.bosch_read_events-Reads.
  pub bosch_read_events-overruns :
      (now_m now_a : ℕ → ℕ) (count : ℕ) (b : BoschYamaha Float) (em ea : List InputEvent)
      → IsReader b.magnetic.reader
      → IsReader b.accel.reader
      → length em ≤ b.magnetic.reader.free_space
      → length ea ≤ b.accel.reader.free_space
      → 0 < count_due (compass_decode f) b.magnetic (contents b.magnetic.reader ++ em)
      → count_due (compass_decode f) b.magnetic (contents b.magnetic.reader ++ em) < count
      → count
        ≤ count_due (compass_decode f) b.magnetic (contents b.magnetic.reader ++ em)
          + count_due (smb380_decode f) b.accel (contents b.accel.reader ++ ea)
      → (x : Outcome Float) × (bosch_read_events f m now_m now_a count (got em) (got ea) b ≡ some x)
        × (x.result ≡ pos (suc count))
        × (length x.events ≡ suc count)
  bosch_read_events-overruns now_m now_a count b em ea vm va lm la one fewer enough =
      let (x, ms, es, h, a, same, result, w, u, ends) =
        bosch_read_events-Reads f m now_m now_a count b em ea (omega arith) vm va lm la in
      let n =
        Takes-length (compass_decode f) count b.magnetic (contents b.magnetic.reader ++ em) ms h
          w in
      let k =
        Takes-length (smb380_decode f) (count - length ms) b.accel (contents b.accel.reader ++ ea)
          es a u in
      let h_ready =
        Takes-data_ready (compass_decode f) count b.magnetic (contents b.magnetic.reader ++ em) ms h
          w (omega arith) in
      let a_ready =
        Takes-data_ready (smb380_decode f) (count - length ms) b.accel
          (contents b.accel.reader ++ ea) es a u (omega arith) in
      let both : both_ready f m (record b { magnetic = h; accel = a }) ≡ true =
        rw (h_ready, a_ready) refl in
      let all : length x.events ≡ suc count =
        Ends-joint (ms ++ es) (record b { magnetic = h; accel = a }) x ends both
        ∙ ap suc (length-append ms es)
        ∙ omega arith in
      (x, same, result ∙ ap pos all, all)
