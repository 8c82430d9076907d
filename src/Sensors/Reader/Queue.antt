-- ===== src/Sensors/Reader/Queue.antt =====
-- The event ring of libsensors/InputEventReader.cpp is a bounded queue.
use android_device_samsung_a.Prelude.{
  ℕ, suc, ◌+◌, ◌-◌, ◌≤◌, ◌<◌, ◌≡◌, ◌≢◌, ◌⊎◌, inl, inr, refl, ap, sym, ◌∙◌, true, false, some, List,
  [], ◌∷◌, ◌++◌, leb, ◌==◌, if◌then◌else◌, length, get_elem?, Bool-cases, arith,
}
use mathlib.Core.List.{append-nil}
use android_device_samsung_a.Prelude.Int.{ℤ, pos}
use android_device_samsung_a.Prelude.Slices.{slice, length-write_at, slice-suc}
use android_device_samsung_a.Sensors.Reader.{
  InputEvent, EventReader, ReadOutcome, neg, einval, failed, torn, got, read_events_into, fill,
  read_event, next,
}
use android_device_samsung_a.Sensors.Reader.Extend.{extends}
use android_device_samsung_a.Sensors.Reader.Contents.{
  used, IsReader, around, contents, around_nothing, around-slice, around_split, around-write_at,
}

-- What read(2) may do with the space that it is given: it fills no more than that.
abbrev pub Fits : EventReader → ReadOutcome → Type 0
Fits r (failed errno) = Unit {0}
Fits r (torn es) = length es ≤ r.free_space
Fits r (got es) = length es ≤ r.free_space

-- The events that a call of `fill` brings.
abbrev pub arrived : ReadOutcome → List InputEvent
arrived (got es) = es
arrived _ = []

-- Its result, where there is space for events.
abbrev pub fill_result : ReadOutcome → ℤ
fill_result (failed errno) = neg errno
fill_result (torn es) = neg einval
fill_result (got es) = pos (length es)

abbrev pub Fills : EventReader → ReadOutcome → ℤ × EventReader → Type 0
Fills r o p = IsReader p.1 × (contents p.1 ≡ contents r ++ arrived o) × (p.0 ≡ fill_result o)

read_events_into_lem :
    (r : EventReader) (o : ReadOutcome) → IsReader r → Fits r o → Fills r o (read_events_into r o)
unfolding read_events_into contents
read_events_into_lem r (failed e) v l = (v, sym (append-nil (contents r)), refl)
read_events_into_lem r (torn es) v l = (
  (length-write_at r.buffer r.head es ∙ v.0, v.1, v.2, v.3, v.4),
  around-write_at r.buffer r.buffer_end r.curr (used r) r.head es v.4 v.3 (omega (arith, v.2))
      ∙ sym (append-nil (contents r)),
  refl,
)
read_events_into_lem r (got []) v l = (v, sym (append-nil (contents r)), refl)
read_events_into_lem r (got (e ∷ es)) v l =
    let (v', same) = extends r (e ∷ es) v l (omega arith) in
    let some_read : (length (e ∷ es) == 0) ≡ false = ground arith in rw some_read (v', same, refl)

-- `fill` on a ring keeps it a ring. Where there is no space it returns 0 and changes nothing. Where
-- there is, and read(2) writes no more than it was given space for, its events go behind those that
-- wait, in order, and their number is returned; after an error, or a read that ends within an event,
-- the same events wait as before, and `-errno` or `-EINVAL` is returned.
pub fill_lem :
    (r : EventReader) (o : ReadOutcome)
    → IsReader r
    → Fits r o
    → ((r.free_space ≡ 0) × (fill r o ≡ (pos 0, r))) ⊎ ((0 < r.free_space) × Fills r o (fill r o))
unfolding fill
fill_lem r o v l = elim (Bool-cases (r.free_space == 0)) [
  | inl z ↦ inl (ground arith, rw z refl)
  | inr z ↦ inr (ground arith, rw z (read_events_into_lem r o v l))
]

-- The place after `c` on a ring of `e` places.
abbrev place_after : ℕ → ℕ → ℕ
place_after e c = if leb e (suc c) then 0 else suc c

Steps : List InputEvent → ℕ → ℕ → ℕ → Type 0
Steps b e c n =
    (x : InputEvent) × (get_elem? b c ≡ some x)
    × (around b e c (suc n) ≡ x ∷ around b e (place_after e c) n)

step_in_place : (b : List InputEvent) (e c n : ℕ) → e + e ≤ length b → c + suc n ≤ e → Steps b e c n
unfolding Steps
step_in_place b e c n l m =
    let (x, g, s) = slice-suc b c n (omega arith) in
    elim (Bool-cases (leb e (suc c))) [
      | inl w ↦
          (x, g, around-slice b e c (suc n) m ∙ s ∙ ap (λ q. x ∷ q) (rw w (last (ground arith))))
      | inr w ↦ (
        x,
        g,
        around-slice b e c (suc n) m
            ∙ s
            ∙ ap (λ q. x ∷ q) (rw w (sym (around-slice b e (suc c) n (omega arith)))),
      )
    ]
  where
    last : n ≡ 0 → slice b (suc c) n ≡ around b e 0 n
    last z = rw z (sym (around-slice b e 0 0 (omega arith)))

step_round :
    (b : List InputEvent) (e c n h : ℕ)
    → e + e ≤ length b
    → c < e
    → n < e
    → suc h + e ≡ c + suc n
    → Steps b e c n
unfolding Steps
step_round b e c n h l m k o =
    let (x, g, s) = slice-suc b c (e - suc c) (omega arith) in
    let first : slice b c (e - c) ≡ x ∷ slice b (suc c) (e - suc c) =
      ap (slice b c) {y = suc (e - suc c)} (omega arith) ∙ s in
    let split = around_split b e c (suc n) (suc h) o ∙ ap (λ q. q ++ slice b 0 (suc h)) first in
    elim (Bool-cases (leb e (suc c))) [
      | inl w ↦ (x, g, split ∙ ap (λ q. x ∷ q) (rw w (turn (ground arith))))
      | inr w ↦ (
        x,
        g,
        split ∙ ap (λ q. x ∷ q) (rw w (sym (around_split b e (suc c) n (suc h) (omega arith)))),
      )
    ]
  where
    turn : e ≤ suc c → slice b (suc c) (e - suc c) ++ slice b 0 (suc h) ≡ around b e 0 n
    turn w =
        let none_left : e - suc c ≡ 0 = omega arith in
        let all : suc h ≡ n = omega arith in
        rw (none_left, all) (sym (around-slice b e 0 n (omega arith)))

step_lem : (b : List InputEvent) (e c n : ℕ) → e + e ≤ length b → c < e → n < e → Steps b e c n
step_lem b e c n l m k = elim (Bool-cases (leb (c + suc n) e)) [
  | inl w ↦ step_in_place b e c n l (ground arith)
  | inr w ↦ step_round b e c n (c + suc n - suc e) l m k (ground arith)
]

next-IsReader : (r : EventReader) → IsReader r → r.free_space ≢ r.buffer_end → IsReader (next r)
unfolding next
next-IsReader r v p = ground arith

-- On a ring, readEvent says that an event is available exactly when one waits, and then gives the
-- oldest; `next` drops that one, which makes one fewer,
-- and keeps the others in order.
pub next_lem :
    (r : EventReader)
    → IsReader r
    → (((read_event r).0 ≡ false) × (contents r ≡ []))
      ⊎ ((e : InputEvent) × (read_event r ≡ (true, some e))
          × IsReader (next r)
          × (suc (used (next r)) ≡ used r)
          × (contents r ≡ e ∷ contents (next r)))
unfolding contents read_event next Steps
next_lem r v = elim (Bool-cases (r.buffer_end == r.free_space)) [
  | inl w ↦ inl (
    rw w refl,
    around_nothing r.buffer r.buffer_end r.curr (used r) (omega (arith, v.1)) (ground arith),
  )
  | inr w ↦
      let waiting : used r ≡ suc (used r - 1) = ground arith in
      let left : used (next r) ≡ used r - 1 = ground arith in
      let (x, g, s) =
        step_lem r.buffer r.buffer_end r.curr (used r - 1) (omega (arith, v.0)) v.1
          (ground arith) in
      inr (
        x,
        rw (w, g) refl,
        next-IsReader r v (ground arith),
        omega arith,
        ap (around r.buffer r.buffer_end r.curr) waiting
            ∙ s
            ∙ ap (λ k. x ∷ around r.buffer r.buffer_end (place_after r.buffer_end r.curr) k)
                (sym left),
      )
]
