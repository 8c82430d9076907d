-- ===== src/Sensors/Gyro/Spin.antt =====
-- What readEvents of libsensors/GyroSensor.cpp does while read(2) fails.
use android_device_samsung_a.Prelude.{
  ℕ, suc, ◌+◌, ◌<◌, ◌≤◌, ◌≡◌, ◌≢◌, inl, inr, refl, ap, sym, ◌∙◌, ◌++◌, length, true, false, none,
  some, List, [], ◌∷◌, ◌==◌, arith,
}
use android_device_samsung_a.Prelude.Int.{ℤ, pos, negsuc}
use android_device_samsung_a.Sensors.Reader.{
  InputEvent, EventReader, ReadOutcome, failed, got, read_events_into, fill, read_event, next,
}
use android_device_samsung_a.Sensors.Reader.Contents.{IsReader, contents}
use android_device_samsung_a.Sensors.Reader.Queue.{next_lem, fill_lem}
use android_device_samsung_a.Sensors.Driver.{Values, SensorEvent, Driver, loop, ev_rel}
use android_device_samsung_a.Sensors.Driver.Deliver.{due, reported, reports, loop_lem}
use android_device_samsung_a.Sensors.Drivers.{FloatApi}
use android_device_samsung_a.Sensors.Gyro.{gyro_decode, gyro_again, gyro_filled, gyro_read_events}

-- Calls of read(2) that fail, with these error numbers plus 1.
abbrev pub failures : List ℕ → List ReadOutcome
failures [] = []
failures (e ∷ es) = failed (suc e) ∷ failures es

fill_failed : (r : EventReader) (e : ℕ) → 0 < r.free_space → fill r (failed (suc e)) ≡ (negsuc e, r)
unfolding fill read_events_into
fill_failed r e l = ground arith

-- A ring that holds nothing has space.
empty_space : (r : EventReader) → IsReader r → contents r ≡ [] → 0 < r.free_space
unfolding read_event
empty_space r v c = elim (next_lem r v) [
  | inl (nothing, same) ↦ ground (arith, v.1)
  | inr (e, found, v', fewer, cs) ↦ absurd (cons_ne e (contents (next r)) (sym cs ∙ c))
]
  where
    cons_ne : (e : InputEvent) (es : List InputEvent) → e ∷ es ≢ []
    cons_ne e es h = cc

module _ (f : FloatApi) (now : ℕ → ℕ) where
  reported_nil :
      (out : List (SensorEvent f.Float)) (rest : List (ℕ × Values f.Float))
      → reported ev_rel (gyro_decode f) out ++ rest ≡ []
      → out ≡ []
  reported_nil [] rest h = refl
  reported_nil (e ∷ out) rest h = cc

  again_failed :
      (e : ℕ) (os : List ReadOutcome) (i n : ℕ) (d d' : Driver f.Float)
      → loop ev_rel (gyro_decode f) now (suc d.reader.buffer_end) i (suc n) d ≡ some ([], d')
      → (d'.enabled == 1) ≡ true
      → 0 < d'.reader.free_space
      → gyro_again f now (failed (suc e) ∷ os) i (suc n) d
        ≡ gyro_again f now os (i + suc d.reader.buffer_end) (suc n) d'
  unfolding gyro_again
  again_failed e os i n d d' same en l =
      rw (same, gyro_again, en, fill_failed d'.reader e l)
        (ap
          (λ (p : ℤ × EventReader).
            gyro_again f now os (i + suc d.reader.buffer_end) (suc n) (record d' { reader = p.1 }))
          (fill_failed d'.reader e l))

  again_waits :
      (i n : ℕ) (d d' : Driver f.Float)
      → loop ev_rel (gyro_decode f) now (suc d.reader.buffer_end) i (suc n) d ≡ some ([], d')
      → (d'.enabled == 1) ≡ true
      → gyro_again f now [] i (suc n) d ≡ none
  unfolding gyro_again
  again_waits i n d d' same en = rw (same, gyro_again, en) refl

  -- The loop delivers nothing, and leaves nothing in the ring.
  drains :
      (i n : ℕ) (d : Driver f.Float)
      → d.enabled ≡ 1
      → IsReader d.reader
      → due ev_rel (gyro_decode f) d (contents d.reader) ≡ []
      → (d' : Driver f.Float) × (loop ev_rel
            (gyro_decode f)
            now
            (suc d.reader.buffer_end)
            i
            (suc n)
            d
          ≡ some ([], d'))
        × (d'.enabled ≡ 1)
        × IsReader d'.reader
        × (contents d'.reader ≡ [])
  drains i n d en v none_due =
      let (out, d', same, (v', room, all, end, enabled, hp)) =
        loop_lem ev_rel (gyro_decode f) now (suc d.reader.buffer_end) i (suc n) d v (omega arith) in
      let nil =
        reported_nil out (due ev_rel (gyro_decode f) d' (contents d'.reader)) (all ∙ none_due) in
      (
        d',
        same ∙ ap (λ o. some (o, d')) nil,
        enabled ∙ en,
        v',
        elim end [ inl full ↦ absurd (zero_ne_suc (sym (ap length nil) ∙ full)) | inr left ↦ left ],
      )
    where
      zero_ne_suc : ◌≢◌ {A = ℕ} 0 (suc n)
      zero_ne_suc h = omega arith

  spins :
      (es : List ℕ) (i n : ℕ) (d : Driver f.Float)
      → d.enabled ≡ 1
      → IsReader d.reader
      → due ev_rel (gyro_decode f) d (contents d.reader) ≡ []
      → gyro_again f now (failures es) i (suc n) d ≡ none
  unfolding reports
  spins [] i n d en v none_due =
      let (d', same, en', v', c) = drains i n d en v none_due in
      again_waits i n d d' same (ground arith)
  spins (e ∷ es) i n d en v none_due =
      let (d', same, en', v', c) = drains i n d en v none_due in
      again_failed e (failures es) i n d d' same (ground arith) (empty_space d'.reader v' c)
      ∙ spins es (i + suc d.reader.buffer_end) n d' en' v' (ap (due ev_rel (gyro_decode f) d') c)

  gyro_filled_pos :
      (os : List ReadOutcome) (count : ℕ) (d : Driver f.Float) (p : ℤ × EventReader) (k : ℕ)
      → p.0 ≡ pos k
      → gyro_filled f now os count d p ≡ gyro_again f now os 1 count (record d { reader = p.1 })
  unfolding gyro_filled
  gyro_filled_pos os count d (pos n, r) k e = refl
  gyro_filled_pos os count d (negsuc n, r) k e = cc

  gyro_ready :
      (n : ℕ) (d : Driver f.Float) (o : ReadOutcome) (os : List ReadOutcome)
      → d.has_pending ≡ false
      → gyro_read_events f now (suc n) o os d ≡ gyro_filled f now os (suc n) d (fill d.reader o)
  unfolding gyro_read_events
  gyro_ready n d o os hp = ground arith

  -- Where GyroSensor is enabled and has no pending event, and the events in its ring and the new ones from
  -- the first read(2), for which there is space, hold no EV_SYN, readEvents does not return as long as
  -- read(2) fails, however often that is: a negative result of `fill` sends it back to the label `again`.
  pub gyro_spins :
      (n : ℕ) (d : Driver f.Float) (es : List InputEvent) (errors : List ℕ)
      → d.enabled ≡ 1
      → d.has_pending ≡ false
      → IsReader d.reader
      → 0 < d.reader.free_space
      → length es ≤ d.reader.free_space
      → due ev_rel (gyro_decode f) d (contents d.reader ++ es) ≡ []
      → gyro_read_events f now (suc n) (got es) (failures errors) d ≡ none
  gyro_spins n d es errors en hp v space l none_due =
      gyro_ready n d (got es) (failures errors) hp ∙ elim (fill_lem d.reader (got es) v l) [
        | inl (full, same) ↦ absurd (omega arith)
        | inr (room, (v', cs, k)) ↦
            gyro_filled_pos (failures errors) (suc n) d (fill d.reader (got es)) (length es) k
            ∙ spins errors 1 n (record d { reader = (fill d.reader (got es)).1 }) en v'
                (ap (due ev_rel (gyro_decode f) d) cs ∙ none_due)
      ]
