-- ===== src/Sensors/Reader/Extend.antt =====
-- New events go behind those that wait in the ring of libsensors/InputEventReader.cpp.
use android_device_samsung_a.Prelude.{
  ℕ, ◌+◌, ◌-◌, ◌≤◌, ◌<◌, ◌≡◌, inl, inr, ap, ap₂, sym, ◌∙◌, true, List, ◌++◌, ltb, length,
  Bool-cases, arith,
}
use android_device_samsung_a.Prelude.Slices.{slice, write_at, length-write_at, slice-write_self}
use android_device_samsung_a.Sensors.Reader.{InputEvent, EventReader, wrap_head}
use android_device_samsung_a.Sensors.Reader.Contents.{
  used, IsReader, contents, straight, wrapped, behind, around-slice, around_nothing, around_split,
}

abbrev pub extend : EventReader → List InputEvent → EventReader
extend r es = record r {
  buffer = write_at r.buffer r.head es;
  head = r.head + length es;
  free_space = r.free_space - length es;
}

abbrev pub Extends : EventReader → List InputEvent → EventReader → Type 0
Extends r es r' = IsReader r' × (contents r' ≡ contents r ++ es)

length-extend :
    (r : EventReader) (es : List InputEvent)
    → length r.buffer ≡ r.buffer_end + r.buffer_end
    → length (write_at r.buffer r.head es) ≡ r.buffer_end + r.buffer_end
length-extend r es n = omega (arith, length-write_at r.buffer r.head es)

within :
    (r : EventReader) (es : List InputEvent)
    → IsReader r
    → length es ≤ r.free_space
    → 0 < length es
    → r.head + length es ≤ r.buffer_end
    → Extends r es (extend r es)
unfolding contents
within r es (n, c, f, h, inl e) l p w = (
  (length-extend r es n, c, omega arith, w, inl (omega arith)),
  around-slice (write_at r.buffer r.head es) r.buffer_end r.curr _ (omega arith)
      ∙ ap (slice (write_at r.buffer r.head es) r.curr) (omega arith)
      ∙ straight r.buffer r.curr (used r) r.head es e (omega arith)
      ∙ ap (λ q. q ++ es) (sym (around-slice r.buffer r.buffer_end r.curr (used r) (omega arith))),
)
within r es (n, c, f, h, inr (inl e)) l p w = (
  (length-extend r es n, c, omega arith, w, inr (inl (omega arith))),
  around_split (write_at r.buffer r.head es) r.buffer_end r.curr _ (r.head + length es)
        (omega arith)
      ∙ behind r.buffer r.curr (r.buffer_end - r.curr) r.head es (omega arith) (omega arith)
      ∙ ap (λ q. q ++ es) (sym (around_split r.buffer r.buffer_end r.curr (used r) r.head e)),
)
within r es (n, c, f, h, inr (inr e)) l p w = absurd (omega (arith, e.0))

-- The events go to the front of a ring that is empty, from its very end.
at_end :
    (r : EventReader) (es : List InputEvent)
    → length r.buffer ≡ r.buffer_end + r.buffer_end
    → r.head ≡ r.buffer_end
    → length es ≤ r.buffer_end
    → let b' = write_at r.buffer r.head es in
      let s = r.head + length es - r.buffer_end in
      slice (write_at b' 0 (slice b' r.buffer_end s)) 0 s ≡ es
at_end r es n h l =
    rw (all, ← h)
      (rw read_back
        (slice-write_self (write_at r.buffer r.head es) 0 es (omega (arith, length-extend r es n))))
  where
    all : r.head + length es - r.buffer_end ≡ length es
    all = omega arith

    read_back : slice (write_at r.buffer r.head es) r.head (length es) ≡ es
    read_back = slice-write_self r.buffer r.head es (omega arith)

past_end :
    (r : EventReader) (es : List InputEvent)
    → IsReader r
    → length es ≤ r.free_space
    → r.buffer_end < r.head + length es
    → Extends r es (wrap_head (extend r es))
unfolding contents wrap_head
past_end r es (n, c, f, h, inr (inl e)) l w = absurd (omega arith)
past_end r es (n, c, f, h, inr (inr (e, z))) l w =
    let over : ltb r.buffer_end (r.head + length es) ≡ true = ground arith in
    let b' = write_at r.buffer r.head es in
    let s = r.head + length es - r.buffer_end in
    let b'' = write_at b' 0 (slice b' r.buffer_end s) in
    let first : r.curr ≡ 0 = omega arith in
    let count : r.buffer_end - (r.free_space - length es) ≡ s = omega arith in
    rw over (
      (
        length-write_at b' 0 (slice b' r.buffer_end s) ∙ length-extend r es n,
        c,
        omega arith,
        omega arith,
        inl (omega arith),
      ),
      around-slice b'' r.buffer_end r.curr _ (omega arith)
          ∙ ap₂ (slice b'') first count
          ∙ at_end r es n e (omega arith)
          ∙ ap (λ q. q ++ es)
              (sym
                (around_nothing r.buffer r.buffer_end r.curr (used r) (omega arith) (omega arith))),
    )
past_end r es (n, c, f, h, inl e) l w = rw over (
  (
    length-write_at b' 0 (slice b' r.buffer_end s) ∙ length-extend r es n,
    c,
    omega arith,
    omega arith,
    inr (inl (omega arith)),
  ),
  around_split b'' r.buffer_end r.curr _ s (omega arith)
      ∙ ap
          (λ i.
            slice (write_at b' 0 (slice b' i s)) r.curr d
            ++ slice (write_at b' 0 (slice b' i s)) 0 s)
          there
      ∙ wrapped r.buffer r.curr d (used r) r.head s es e (omega arith) (omega arith) (omega arith)
      ∙ ap (λ q. q ++ es) (sym (around-slice r.buffer r.buffer_end r.curr (used r) (omega arith))),
)
  where
    over : ltb r.buffer_end (r.head + length es) ≡ true
    over = ground arith

    b' : List InputEvent
    b' = write_at r.buffer r.head es

    s : ℕ
    s = r.head + length es - r.buffer_end

    b'' : List InputEvent
    b'' = write_at b' 0 (slice b' r.buffer_end s)

    d : ℕ
    d = r.buffer_end - r.curr

    there : r.buffer_end ≡ r.curr + d
    there = omega arith

-- `fill` with whole events that read(2) had space for.
pub extends :
    (r : EventReader) (es : List InputEvent)
    → IsReader r
    → length es ≤ r.free_space
    → 0 < length es
    → Extends r es (wrap_head (extend r es))
unfolding wrap_head
extends r es v l p = elim (Bool-cases (ltb r.buffer_end (r.head + length es))) [
  | inl w ↦ past_end r es v l (ground arith)
  | inr w ↦ rw w (within r es v l p (ground arith))
]
