-- ===== src/Sensors/Bosch/Reads.antt =====
-- What a call of readEvents of libsensors/BoschYamaha.cpp returns.
use android_device_samsung_a.Prelude.{
  ℕ, suc, ◌+◌, ◌-◌, ◌<◌, ◌≤◌, ◌≡◌, ◌∙◌, ◌⊎◌, inl, inr, refl, sym, ap, subst, min, true, false,
  Option, some, List, [], ◌∷◌, ◌++◌, ◌==◌, length, length-append, Bool-cases, arith,
}
use android_device_samsung_a.Prelude.Int.{pos}
use android_device_samsung_a.Sensors.Reader.{InputEvent, ReadOutcome, got}
use android_device_samsung_a.Sensors.Reader.Contents.{IsReader, contents}
use android_device_samsung_a.Sensors.Driver.{Values, SensorEvent, ev_abs}
use android_device_samsung_a.Sensors.Driver.Deliver.{due, reported}
use android_device_samsung_a.Sensors.Drivers.{FloatApi, smb380_decode, compass_decode}
use android_device_samsung_a.Sensors.Bosch.Orientation.{MathApi, process_orientation}
use android_device_samsung_a.Sensors.Bosch.{
  Half, BoschYamaha, Outcome, both_ready, finish, read_half, after_accel, after_magnetic,
  bosch_read_events,
}
use android_device_samsung_a.Sensors.Bosch.Loop.{as_driver, ready_after, Takes, read_half_lem}

length-reported :
    {F : Type 0} (decode : Values F → InputEvent → Values F) (es : List (SensorEvent F))
    → length (reported ev_abs decode es) ≡ length es
length-reported decode [] = refl
length-reported decode (e ∷ es) = ap suc (length-reported decode es)

-- The number of reports taken: those that are due, as far as there is room.
pub Takes-length :
    {F : Type 0} (decode : Values F → InputEvent → Values F) (n : ℕ) (h : Half F)
    (es : List InputEvent) (out : List (SensorEvent F)) (h' : Half F)
    → Takes decode n h es out h'
    → length out ≡ min n (length (due ev_abs decode (as_driver h) es))
Takes-length decode n h es out h' w =
    let left = due ev_abs decode (as_driver h') (contents h'.reader) in
    let total : length out + length left ≡ length (due ev_abs decode (as_driver h) es) =
      ap (λ k. k + length left) (sym (length-reported decode out))
      ∙ sym (length-append (reported ev_abs decode out) left)
      ∙ ap length w.2 in
    let closed : (length out ≡ n) ⊎ (length left ≡ 0) = elim w.3 [
      | inl x ↦ inl x
      | inr x ↦ inr (ap length x)
    ] in
    omega (arith, total, closed, w.1)

pub ready_after-some :
    {F : Type 0} (old : ℕ) (out : List (SensorEvent F)) → 0 < length out → ready_after old out ≡ 1
ready_after-some old [] some_out = absurd (omega arith)
ready_after-some old (e ∷ es) some_out = refl

module _ (f : FloatApi) (m : MathApi f) where
  open f use {Float}

  -- The orientation follows where both halves have new data, and then they have none.
  abbrev pub Ends : List (SensorEvent Float) → BoschYamaha Float → Outcome Float → Type 0
  Ends es b x =
      ((both_ready f m b ≡ true)
        × (o : SensorEvent Float) × (o
            ≡ process_orientation f m b.accel.last_read b.magnetic.last_read b.orientation)
        × (x.events ≡ es ++ (o ∷ []))
        × (x.driver ≡ record b {
          accel = record b.accel { data_ready = 0 };
          magnetic = record b.magnetic { data_ready = 0 };
          orientation = o;
        }))
      ⊎ ((both_ready f m b ≡ false) × (x.events ≡ es) × (x.driver ≡ b))

  -- The end of the call that has data of both kinds.
  abbrev joint : List (SensorEvent Float) → BoschYamaha Float → SensorEvent Float → Outcome Float
  joint es b o = record {
    result = pos (length (es ++ (o ∷ [])));
    events = es ++ (o ∷ []);
    driver = record b {
      accel = record b.accel { data_ready = 0 };
      magnetic = record b.magnetic { data_ready = 0 };
      orientation = o;
    };
  }

  finish-ready :
      (es : List (SensorEvent Float)) (b : BoschYamaha Float)
      → both_ready f m b ≡ true
      → finish f m es b
        ≡ joint es b (process_orientation f m b.accel.last_read b.magnetic.last_read b.orientation)
  unfolding finish
  finish-ready es b e = rw e refl

  finish-waiting :
      (es : List (SensorEvent Float)) (b : BoschYamaha Float)
      → both_ready f m b ≡ false
      → finish f m es b ≡ record { result = pos (length es); events = es; driver = b }
  unfolding finish
  finish-waiting es b e = rw e refl

  abbrev Finishes : List (SensorEvent Float) → BoschYamaha Float → Outcome Float → Type 0
  Finishes es b x = (x.result ≡ pos (length x.events)) × Ends es b x

  finish_lem :
      (es : List (SensorEvent Float)) (b : BoschYamaha Float) → Finishes es b (finish f m es b)
  finish_lem es b = elim (Bool-cases (both_ready f m b)) [
    | inl e ↦ subst (Finishes es b) (sym (finish-ready es b e)) (refl, inl (e, _, refl, refl, refl))
    | inr e ↦ subst (Finishes es b) (sym (finish-waiting es b e)) (refl, inr (e, refl, refl))
  ]

  -- A call that returns: what it took for the compass, then for the accelerometer, and how it ended.
  abbrev pub Reads :
      ℕ → BoschYamaha Float → List InputEvent → List InputEvent → Option (Outcome Float) → Type 0
  Reads count b em ea result =
      (x : Outcome Float) × (ms : List (SensorEvent Float)) × (es : List (SensorEvent Float))
      × (h : Half Float) × (a : Half Float) × (result ≡ some x)
      × (x.result ≡ pos (length x.events))
      × Takes (compass_decode f) count b.magnetic em ms h
      × Takes (smb380_decode f) (count - length ms) b.accel ea es a
      × Ends (ms ++ es) (record b { magnetic = h; accel = a }) x

  module _ (now_m now_a : ℕ → ℕ) where
    bosch_read_events-halves :
        (count : ℕ) (b : BoschYamaha Float) (om oa : ReadOutcome) (i j : ℕ)
        (ms es : List (SensorEvent Float)) (h a : Half Float)
        → 0 < count
        → read_half (compass_decode f) now_m count om b.magnetic ≡ some (pos i, ms, h)
        → read_half (smb380_decode f) now_a (count - length ms) oa b.accel ≡ some (pos j, es, a)
        → bosch_read_events f m now_m now_a count om oa b
          ≡ some (finish f m (ms ++ es) (record b { magnetic = h; accel = a }))
    unfolding bosch_read_events after_magnetic after_accel
    bosch_read_events-halves count b om oa i j ms es h a some_room p q =
        let room : (count == 0) ≡ false = ground arith in rw (room, p, after_magnetic, q) refl

    -- readEvents of BoschYamaha with room for at least one event, where the two calls of read(2) give whole
    -- events that fit into the rings, returns the number of events that it wrote. They are, in order and as
    -- far as there is room, the reports due of the compass, then in the room left those of the
    -- accelerometer; what was not written stays due, and a sensor that is not enabled has nothing due and
    -- is not read. Behind them, whatever room there is, comes one report of the orientation, computed from
    -- the last values of both, if both sensors have reported since the last one, and only then.
    pub bosch_read_events-Reads :
        (count : ℕ) (b : BoschYamaha Float) (em ea : List InputEvent)
        → 0 < count
        → IsReader b.magnetic.reader
        → IsReader b.accel.reader
        → length em ≤ b.magnetic.reader.free_space
        → length ea ≤ b.accel.reader.free_space
        → Reads count b
            (contents b.magnetic.reader ++ em)
            (contents b.accel.reader ++ ea)
            (bosch_read_events f m now_m now_a count (got em) (got ea) b)
    bosch_read_events-Reads count b em ea some_room vm va lm la =
        let (i, ms, h, p, w) = read_half_lem (compass_decode f) now_m count b.magnetic em vm lm in
        let (j, es, a, q, u) =
          read_half_lem (smb380_decode f) now_a (count - length ms) b.accel ea va la in
        let (result, ends) = finish_lem (ms ++ es) (record b { magnetic = h; accel = a }) in
        (
          _,
          ms,
          es,
          h,
          a,
          bosch_read_events-halves count b (got em) (got ea) i j ms es h a some_room p q,
          result,
          w,
          u,
          ends,
        )
