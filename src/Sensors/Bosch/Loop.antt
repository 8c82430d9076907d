-- ===== src/Sensors/Bosch/Loop.antt =====
-- One half of readEvents of libsensors/BoschYamaha.cpp does what readEvents of the other drivers does.
use android_device_samsung_a.Prelude.{
  ℕ, zero, suc, ◌<◌, ◌≤◌, ◌≡◌, ◌∙◌, ◌⊎◌, inl, inr, refl, sym, ap, subst, false, Option, none, some,
  List, [], ◌∷◌, ◌++◌, ◌==◌, length, Option-cases, Bool-cases, arith,
}
use mathlib.Core.List.{append-nil}
use android_device_samsung_a.Prelude.Int.{ℤ, pos, negsuc}
use android_device_samsung_a.Sensors.Reader.{InputEvent, EventReader, got, fill, read_event, next}
use android_device_samsung_a.Sensors.Reader.Contents.{used, IsReader, contents}
use android_device_samsung_a.Sensors.Reader.Queue.{fill_lem}
use android_device_samsung_a.Sensors.Driver.{
  Values, SensorEvent, Driver, ev_abs, available, process, loop, deliver, room_after,
}
use android_device_samsung_a.Sensors.Driver.Deliver.{reports, due, reported, Delivers, loop_lem}
use android_device_samsung_a.Sensors.Driver.Reads.{nothing_fits}
use android_device_samsung_a.Sensors.Bosch.{
  Half, process_half, loop_half, half_done, filled_half, read_half,
}

-- The half as a driver of the other kind.
abbrev pub as_driver : {F : Type 0} → Half F → Driver F
as_driver h = record {
  enabled = h.enabled;
  reader = h.reader;
  pending = h.pending;
  has_pending = false;
}

abbrev forget :
    {F : Type 0} → Option (List (SensorEvent F) × Half F) → Option (List (SensorEvent F) × Driver F)
forget none = none
forget (some (es, h)) = some (es, as_driver h)

forget-found :
    {F : Type 0} (r : Option (List (SensorEvent F) × Half F)) (es : List (SensorEvent F))
    (d : Driver F)
    → forget r ≡ some (es, d)
    → (h : Half F) × (r ≡ some (es, h)) × (as_driver h ≡ d)
forget-found none es d e = cc
forget-found (some (os, h)) es d e = (h, ground (arith, e), ground (arith, e))

-- Data is ready behind a report, or as before.
abbrev pub ready_after : {F : Type 0} → ℕ → List (SensorEvent F) → ℕ
ready_after old [] = old
ready_after old (e ∷ es) = 1

abbrev pub last_values : {F : Type 0} → Values F → List (SensorEvent F) → Values F
last_values v [] = v
last_values v (e ∷ es) = last_values e.values es

module _ {F : Type 0} (decode : Values F → InputEvent → Values F) where
  ready_after-deliver :
      (old : ℕ) (v : Values F) (out : Option (SensorEvent F)) (es : List (SensorEvent F))
      → (ready_after (ready_after old (deliver out [])) es ≡ ready_after old (deliver out es))
        × (last_values (last_values v (deliver out [])) es ≡ last_values v (deliver out es))
  ready_after-deliver old v none es = (refl, refl)
  ready_after-deliver old v (some e) [] = (refl, refl)
  ready_after-deliver old v (some e) (x ∷ es) = (refl, refl)

  -- What a half has done by the end: it took the reports due from its ring, up to the room there is.
  abbrev pub Takes : ℕ → Half F → List InputEvent → List (SensorEvent F) → Half F → Type 0
  Takes n h es out h' =
      IsReader h'.reader
      × (length out ≤ n)
      × (reported ev_abs decode out ++ due ev_abs decode (as_driver h') (contents h'.reader)
          ≡ due ev_abs decode (as_driver h) es)
      × ((length out ≡ n) ⊎ (due ev_abs decode (as_driver h') (contents h'.reader) ≡ []))
      × (h'.enabled ≡ h.enabled)
      × (h'.data_ready ≡ ready_after h.data_ready out)
      × (h'.last_read ≡ last_values h.last_read out)

  abbrev pub HalfReads :
      ℕ → Half F → List InputEvent → Option (ℤ × List (SensorEvent F) × Half F) → Type 0
  HalfReads n h es result =
      (k : ℕ) × (out : List (SensorEvent F)) × (h' : Half F) × (result ≡ some (pos k, out, h'))
      × Takes n h es out h'

  due-nil : (d : Driver F) (es : List InputEvent) → es ≡ [] → due ev_abs decode d es ≡ []
  unfolding reports
  due-nil d es e = ground arith

  pub due-off :
      (es : List InputEvent) (sensor : ℕ) (v : Values F) → reports ev_abs decode 0 sensor v es ≡ []
  unfolding reports
  due-off [] sensor v = refl
  due-off (e ∷ es) sensor v = ground (arith, due-off es sensor v, due-off es sensor (decode v e))

  off_due :
      (h : Half F)
      → h.enabled ≡ 0
      → (es : List InputEvent) → due ev_abs decode (as_driver h) es ≡ []
  off_due h z es = rw z (due-off es h.pending.sensor h.pending.values)

  module _ (now : ℕ → ℕ) where
    process_half-process :
        (i : ℕ) (h : Half F) (e : InputEvent)
        → process ev_abs decode now i (as_driver h) e
          ≡ ((process_half decode now i h e).0, (process_half decode now i h e).1.pending)
    unfolding process process_half
    process_half-process i h e = ground arith

    process_half-same :
        (i : ℕ) (h : Half F) (e : InputEvent)
        → ((process_half decode now i h e).1.reader ≡ h.reader)
          × ((process_half decode now i h e).1.enabled ≡ h.enabled)
    unfolding process_half
    process_half-same i h e = ground arith

    -- What a round leaves in the half, by what it delivers.
    process_half-ready :
        (i : ℕ) (h : Half F) (e : InputEvent)
        → ((process_half decode now i h e).1.data_ready
            ≡ ready_after h.data_ready (deliver (process_half decode now i h e).0 []))
          × ((process_half decode now i h e).1.last_read
              ≡ last_values h.last_read (deliver (process_half decode now i h e).0 []))
    unfolding process_half
    process_half-ready i h e = ground arith

    loop_half-loop :
        (fuel i n : ℕ) (h : Half F)
        → forget (loop_half decode now fuel i n h) ≡ loop ev_abs decode now fuel i n (as_driver h)
    unfolding loop_half loop
    loop_half-loop fuel i zero h = refl
    loop_half-loop zero i (suc n) h = refl
    loop_half-loop (suc fuel) i (suc n) h = elim (Option-cases (available (read_event h.reader))) [
      | inl q ↦ rw (forget, loop_half, loop, q) refl
      | inr (e, q) ↦
          let (out, h1) = process_half decode now i h e in
          let h2 = record h1 { reader = next h.reader } in
          elim (Option-cases (loop_half decode now fuel (suc i) (room_after out n) h2)) [
            | inl m ↦ ground (
              arith,
              q,
              m,
              loop_half-loop fuel (suc i) (room_after out n) h2,
              process_half-process i h e,
              process_half-same i h e,
            )
            | inr ((es, h3), m) ↦ ground (
              arith,
              q,
              m,
              loop_half-loop fuel (suc i) (room_after out n) h2,
              process_half-process i h e,
              process_half-same i h e,
            )
          ]
    ]

    loop_half-ready :
        (fuel i n : ℕ) (h : Half F) (es : List (SensorEvent F)) (h' : Half F)
        → loop_half decode now fuel i n h ≡ some (es, h')
        → (h'.data_ready ≡ ready_after h.data_ready es)
          × (h'.last_read ≡ last_values h.last_read es)
    unfolding loop_half
    loop_half-ready fuel i zero h es h' e = ground arith
    loop_half-ready zero i (suc n) h es h' e = ground arith
    loop_half-ready (suc fuel) i (suc n) h es h' r =
        elim (Option-cases (available (read_event h.reader))) [
          | inl q ↦ ground (arith, q)
          | inr (e, q) ↦
              let (out, h1) = process_half decode now i h e in
              let h2 = record h1 { reader = next h.reader } in
              elim (Option-cases (loop_half decode now fuel (suc i) (room_after out n) h2)) [
                | inl m ↦ ground (arith, q, m)
                | inr ((more, h3), m) ↦ ground (
                  arith,
                  q,
                  m,
                  loop_half-ready fuel (suc i) (room_after out n) h2 more h3 m,
                  process_half-ready i h e,
                  ready_after-deliver h.data_ready h.last_read out more,
                )
              ]
        ]

    loop_half_lem :
        (fuel n : ℕ) (h : Half F)
        → IsReader h.reader
        → used h.reader < fuel
        → (out : List (SensorEvent F)) × (h' : Half F) × (loop_half decode now fuel 1 n h
            ≡ some (out, h'))
          × Takes n h (contents h.reader) out h'
    loop_half_lem fuel n h v l =
        let (out, d, same, w) = loop_lem ev_abs decode now fuel 1 n (as_driver h) v l in
        let (h', m, like) =
          forget-found (loop_half decode now fuel 1 n h) out d (loop_half-loop fuel 1 n h ∙ same) in
        let (v', few, split, end, en, hp) =
          subst (Delivers ev_abs decode n (as_driver h) (contents h.reader) out) (sym like) w in
        let (ready, last) = loop_half-ready fuel 1 n h out h' m in
        let nothing_left : (length out ≡ n)
            ⊎ (due ev_abs decode (as_driver h') (contents h'.reader) ≡ []) =
          elim end [
            | inl x ↦ inl x
            | inr x ↦ inr (due-nil (as_driver h') (contents h'.reader) x)
          ] in
        (out, h', m, (v', few, split, nothing_left, en, ready, last))

    filled_half_lem :
        (n : ℕ) (h : Half F) (p : ℤ × EventReader) (k : ℕ) (es : List InputEvent)
        → p.0 ≡ pos k
        → IsReader p.1
        → contents p.1 ≡ es
        → HalfReads n h es (filled_half decode now n h p)
    unfolding filled_half
    filled_half_lem n h (negsuc x, r) k es e v c = cc
    filled_half_lem n h (pos x, r) k es e v c =
        let (out, h', m, w) =
          loop_half_lem (suc r.buffer_end) n (record h { reader = r }) v (omega arith) in
        (
          0,
          out,
          h',
          ap half_done m,
          (w.0, w.1, w.2 ∙ ap (due ev_abs decode (as_driver h)) c, w.3, w.4, w.5, w.6),
        )

    read_half-on :
        (n : ℕ) (h : Half F) (es : List InputEvent)
        → (h.enabled == 0) ≡ false
        → read_half decode now n (got es) h ≡ filled_half decode now n h (fill h.reader (got es))
    unfolding read_half
    read_half-on n h es on = rw on refl

    -- A half that is enabled, or one that is not: then nothing is due and nothing is read.
    pub read_half_lem :
        (n : ℕ) (h : Half F) (es : List InputEvent)
        → IsReader h.reader
        → length es ≤ h.reader.free_space
        → HalfReads n h (contents h.reader ++ es) (read_half decode now n (got es) h)
    unfolding read_half
    read_half_lem n h es v l = elim (Bool-cases (h.enabled == 0)) [
      | inl off ↦
          let z : h.enabled ≡ 0 = ground (arith, off) in
          let none_due = off_due h z in
          (
            0,
            [],
            h,
            rw off refl,
            (
              v,
              omega arith,
              none_due (contents h.reader) ∙ sym (none_due (contents h.reader ++ es)),
              inr (none_due (contents h.reader)),
              refl,
              refl,
              refl,
            ),
          )
      | inr on ↦ rw (read_half-on n h es on) (elim (fill_lem h.reader (got es) v l) [
        | inl (full, same) ↦
            rw (same, nothing_fits es h.reader.free_space l full)
              (filled_half_lem n h (pos 0, h.reader) 0 _ refl v
                (sym (append-nil (contents h.reader))))
        | inr (space, (v', cs, k)) ↦
            filled_half_lem n h (fill h.reader (got es)) (length es) _ k v' cs
      ])
    ]
