-- ===== src/Sensors/Reader.antt =====
-- InputEventCircularReader of libsensors/InputEventReader.cpp: a ring of input events with a second
-- half that takes what read(2) writes past its end. Pointers into the buffer are indexes.
pub mod Contents
pub mod Extend
pub mod Queue
use android_device_samsung_a.Prelude.{
  ℕ, zero, suc, ◌+◌, ◌-◌, Bool, true, false, Option, List, ◌==◌, ltb, leb, if◌then◌else◌, length,
  get_elem?, replicate,
}
use android_device_samsung_a.Prelude.Int.{ℤ, pos, negsuc}
use android_device_samsung_a.Prelude.Slices.{slice, write_at}

-- `struct input_event`, less its time, which nothing reads.
pub record InputEvent : Type 0 where
  pub type : ℕ
  pub code : ℕ
  pub value : ℤ

-- `buffer_end` is `mBufferEnd - mBuffer`.
pub record EventReader : Type 0 where
  pub buffer : List InputEvent
  pub buffer_end : ℕ
  pub head : ℕ
  pub curr : ℕ
  pub free_space : ℕ

abbrev pub blank : InputEvent
blank = record { type = 0; code = 0; value = pos 0 }

-- The constructor.
unfoldable pub new_reader : ℕ → EventReader
new_reader num_events = record {
  buffer = replicate (num_events + num_events) blank;
  buffer_end = num_events;
  head = 0;
  curr = 0;
  free_space = num_events;
}

-- What read(2) does: an error, whole events, or a number of bytes that is no multiple of an event's
-- size; then the last event of the list was written in part.
pub data ReadOutcome : Type 0 where
  failed : ℕ → ReadOutcome
  torn got : List InputEvent → ReadOutcome

abbrev pub neg : ℕ → ℤ
neg zero = pos 0
neg (suc n) = negsuc n

abbrev pub einval : ℕ
einval = 22

-- What lies past the end of the ring goes to its front.
unfoldable pub wrap_head : EventReader → EventReader
wrap_head r =
    let s = r.head - r.buffer_end in
    if ltb r.buffer_end r.head
    then record r { buffer = write_at r.buffer 0 (slice r.buffer r.buffer_end s); head = s }
    else r

-- The result of `fill`, with space left.
unfoldable pub read_events_into : EventReader → ReadOutcome → ℤ × EventReader
unfolding wrap_head
read_events_into r (failed errno) = (neg errno, r)
read_events_into r (torn es) = (neg einval, record r { buffer = write_at r.buffer r.head es })
read_events_into r (got es) = if length es == 0 then (pos 0, r) else (
  pos (length es),
  wrap_head (record r {
    buffer = write_at r.buffer r.head es;
    head = r.head + length es;
    free_space = r.free_space - length es;
  }),
)

unfoldable pub fill : EventReader → ReadOutcome → ℤ × EventReader
unfolding read_events_into
fill r outcome = if r.free_space == 0 then (pos 0, r) else read_events_into r outcome

-- Whether an event is available, and the event at `mCurr`.
unfoldable pub read_event : EventReader → Bool × Option InputEvent
read_event r = ((if r.buffer_end == r.free_space then false else true), get_elem? r.buffer r.curr)

unfoldable pub next : EventReader → EventReader
next r = record r {
  curr = if leb r.buffer_end (suc r.curr) then 0 else suc r.curr;
  free_space = suc r.free_space;
}
