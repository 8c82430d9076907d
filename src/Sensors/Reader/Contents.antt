-- ===== src/Sensors/Reader/Contents.antt =====
-- Which events wait in the ring of libsensors/InputEventReader.cpp, and where new ones go.
use android_device_samsung_a.Prelude.{
  ℕ, zero, suc, ◌+◌, ◌-◌, ◌≤◌, ◌<◌, ◌≡◌, ◌⊎◌, inl, inr, refl, ap, ap₂, sym, ◌∙◌, false, List, [],
  ◌++◌, leb, if◌then◌else◌, length, length-replicate, arith,
}
use mathlib.Core.List.{append_assoc, append-nil}
use android_device_samsung_a.Prelude.Slices.{
  slice, write_at, length-write_at, slice-add, slice-write_before, slice-write_after,
  slice-write_self, length-slice,
}
use android_device_samsung_a.Sensors.Reader.{InputEvent, EventReader, new_reader}

-- How many events wait in the ring.
abbrev pub used : EventReader → ℕ
used r = r.buffer_end - r.free_space

-- The buffer is twice as long as the ring, and `mHead` stands `used` places after `mCurr`, round the
-- ring; where nothing is left it may still stand at the ring's very end.
abbrev pub IsReader : EventReader → Type 0
IsReader r =
    (length r.buffer ≡ r.buffer_end + r.buffer_end)
    × (r.curr < r.buffer_end)
    × (r.free_space ≤ r.buffer_end)
    × (r.head ≤ r.buffer_end)
    × ((r.head ≡ r.curr + used r)
        ⊎ ((r.head + r.buffer_end ≡ r.curr + used r)
            ⊎ ((r.head ≡ r.buffer_end) × (r.curr + used r ≡ 0))))

-- The `n` events from index `c` on, round a ring of `e` places.
unfoldable pub around : List InputEvent → ℕ → ℕ → ℕ → List InputEvent
around b e c n = if leb (c + n) e then slice b c n else slice b c (e - c) ++ slice b 0 (c + n - e)

-- The events that wait, the oldest first.
unfoldable pub contents : EventReader → List InputEvent
contents r = around r.buffer r.buffer_end r.curr (used r)

pub new_reader-IsReader : (n : ℕ) → 0 < n → IsReader (new_reader n)
unfolding new_reader
new_reader-IsReader n l =
    (length-replicate (n + n) _, l, omega arith, omega arith, inl (omega arith))

-- Where the new events and the old ones lie in one stretch.
pub straight :
    (b : List InputEvent) (c n h : ℕ) (es : List InputEvent)
    → h ≡ c + n
    → h + length es ≤ length b
    → slice (write_at b h es) c (n + length es) ≡ slice b c n ++ es
straight b c n h es e l =
    slice-add (write_at b h es) c n (length es)
    ∙ ap₂ ◌++◌ (slice-write_before b h es c n (omega arith))
        (ap (λ i. slice (write_at b h es) i (length es)) (sym e) ∙ slice-write_self b h es l)

-- Where the new events reach past the end of the ring, by `s`, and are copied to its front.
pub wrapped :
    (b : List InputEvent) (c d n h s : ℕ) (es : List InputEvent)
    → h ≡ c + n
    → h + length es ≤ length b
    → n + length es ≡ d + s
    → s ≤ c
    → let b' = write_at b h es in
      let b'' = write_at b' 0 (slice b' (c + d) s) in
      slice b'' c d ++ slice b'' 0 s ≡ slice b c n ++ es
wrapped b c d n h s es eh l e m =
    ap₂ ◌++◌ (slice-write_after b' 0 front c d (omega (arith, whole))) copied
    ∙ sym (slice-add b' c d s)
    ∙ ap (slice b' c) (sym e)
    ∙ straight b c n h es eh l
  where
    b' : List InputEvent
    b' = write_at b h es

    front : List InputEvent
    front = slice b' (c + d) s

    whole : length front ≡ s
    whole = length-slice b' (c + d) s (omega (arith, length-write_at b h es))

    copied : slice (write_at b' 0 front) 0 s ≡ front
    copied =
        ap (slice (write_at b' 0 front) 0) (sym whole)
        ∙ slice-write_self b' 0 front (omega (arith, whole, length-write_at b h es))

-- Where the old events have wrapped and the new ones follow at the front.
pub behind :
    (b : List InputEvent) (c d h : ℕ) (es : List InputEvent)
    → h + length es ≤ c
    → c ≤ length b
    → let b' = write_at b h es in
      slice b' c d ++ slice b' 0 (h + length es) ≡ (slice b c d ++ slice b 0 h) ++ es
behind b c d h es l m =
    ap₂ ◌++◌ (slice-write_after b h es c d l) (straight b 0 h h es (omega arith) (omega arith))
    ∙ sym (append_assoc (slice b c d) (slice b 0 h) es)

pub around-slice : (b : List InputEvent) (e c n : ℕ) → c + n ≤ e → around b e c n ≡ slice b c n
unfolding around
around-slice b e c n l = ground arith

pub around_nothing : (b : List InputEvent) (e c n : ℕ) → c ≤ e → n ≡ 0 → around b e c n ≡ []
around_nothing b e c n l z = rw z (around-slice b e c 0 (omega arith))

pub around_split :
    (b : List InputEvent) (e c n h : ℕ)
    → h + e ≡ c + n
    → around b e c n ≡ slice b c (e - c) ++ slice b 0 h
unfolding around
around_split b e c n zero l =
    rw (append-nil) (around-slice b e c n (omega arith) ∙ ap (slice b c) (omega arith))
around_split b e c n (suc h) l =
    let past : leb (c + n) e ≡ false = ground arith in
    let over : c + n - e ≡ suc h = omega arith in rw (past, over) refl

-- A write where `mHead` stands, as far as there is space, leaves the events that wait.
pub around-write_at :
    (b : List InputEvent) (e c n h : ℕ) (es : List InputEvent)
    → (h ≡ c + n) ⊎ ((h + e ≡ c + n) ⊎ ((h ≡ e) × (c + n ≡ 0)))
    → h ≤ e
    → length es + n ≤ e
    → around (write_at b h es) e c n ≡ around b e c n
around-write_at b e c n h es (inl eh) m l =
    around-slice (write_at b h es) e c n (omega arith)
    ∙ slice-write_before b h es c n (omega arith)
    ∙ sym (around-slice b e c n (omega arith))
around-write_at b e c n h es (inr (inl eh)) m l =
    around_split (write_at b h es) e c n h eh
    ∙ ap₂ ◌++◌ (slice-write_after b h es c (e - c) (omega arith))
        (slice-write_before b h es 0 h (omega arith))
    ∙ sym (around_split b e c n h eh)
around-write_at b e c n h es (inr (inr (eh, z))) m l =
    around-slice (write_at b h es) e c n (omega arith)
    ∙ slice-write_before b h es c n (omega arith)
    ∙ sym (around-slice b e c n (omega arith))
