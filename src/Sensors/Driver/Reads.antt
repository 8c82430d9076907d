-- ===== src/Sensors/Driver/Reads.antt =====
-- What a call of readEvents of the libsensors drivers returns.
use android_device_samsung_a.Prelude.{
  true, ℕ, suc, ◌≤◌, ◌<◌, ◌≡◌, inl, inr, refl, ap, sym, ◌∙◌, false, Option, some, List, [], ◌∷◌,
  ◌++◌, length, arith,
}
use mathlib.Core.List.{append-nil}
use android_device_samsung_a.Prelude.Int.{ℤ, pos, negsuc}
use android_device_samsung_a.Sensors.Reader.{
  InputEvent, EventReader, ReadOutcome, failed, torn, got, fill,
}
use android_device_samsung_a.Sensors.Reader.Contents.{IsReader, contents}
use android_device_samsung_a.Sensors.Reader.Queue.{Fits, arrived, fill_result, fill_lem}
use android_device_samsung_a.Sensors.Driver.{
  Values, Driver, Delivery, loop, received, read_filled, read_events, deliver_pending,
}
use android_device_samsung_a.Sensors.Driver.Deliver.{due, Delivers, loop_lem}

pub nothing_fits : (es : List InputEvent) (n : ℕ) → length es ≤ n → n ≡ 0 → es ≡ []
nothing_fits [] n l z = refl
nothing_fits (e ∷ es) n l z = absurd (omega arith)

arrived_error : (o : ReadOutcome) (k : ℕ) → fill_result o ≡ negsuc k → arrived o ≡ []
arrived_error (failed e) k h = refl
arrived_error (torn es) k h = refl
arrived_error (got es) k h = cc

module _ {F : Type 0} (kind : ℕ) (decode : Values F → InputEvent → Values F) where
  module _ (now : ℕ → ℕ) where
    read_filled_pos :
        (count : ℕ) (d : Driver F) (p : ℤ × EventReader) (k : ℕ)
        → p.0 ≡ pos k
        → read_filled kind decode now count d p
          ≡ received (loop kind decode now (suc p.1.buffer_end) 1 count (record d { reader = p.1 }))
    unfolding read_filled
    read_filled_pos count d (pos n, r) k e = refl
    read_filled_pos count d (negsuc n, r) k e = cc

    read_filled_negsuc :
        (count : ℕ) (d : Driver F) (p : ℤ × EventReader) (k : ℕ)
        → p.0 ≡ negsuc k
        → read_filled kind decode now count d p
          ≡ some (record { result = p.0; events = []; driver = record d { reader = p.1 } })
    unfolding read_filled
    read_filled_negsuc count d (pos n, r) k e = cc
    read_filled_negsuc count d (negsuc n, r) k e = refl

    -- What a call has returned: the number of events that it wrote, and these are the reports due.
    abbrev pub Reads : ℕ → Driver F → List InputEvent → Option (Delivery F) → Type 0
    Reads count d es result =
        (x : Delivery F) × (result ≡ some x)
        × (x.result ≡ pos (length x.events))
        × Delivers kind decode count d es x.events x.driver

    read_ring :
        (count : ℕ) (d : Driver F) (p : ℤ × EventReader) (k : ℕ) (es : List InputEvent)
        → p.0 ≡ pos k
        → IsReader p.1
        → contents p.1 ≡ es
        → Reads count d es (read_filled kind decode now count d p)
    read_ring count d p k es e v c =
        let (out, d', same, w) =
          loop_lem kind decode now (suc p.1.buffer_end) 1 count (record d { reader = p.1 }) v
            (omega arith) in
        (
          record { result = pos (length out); events = out; driver = d' },
          read_filled_pos count d p k e ∙ ap received same,
          refl,
          (w.0, w.1, w.2 ∙ ap (due kind decode d) c, w.3, w.4, w.5),
        )

    read_events_ready :
        (count : ℕ) (d : Driver F) (o : ReadOutcome)
        → 0 < count
        → d.has_pending ≡ false
        → read_events kind decode now count o d
          ≡ read_filled kind decode now count d (fill d.reader o)
    unfolding read_events
    read_events_ready count d o c hp = ground arith

    -- readEvents with room for at least one event, no pending event, and whole events from read(2) that
    -- fit into the ring's space, returns after finitely many rounds the number of events that it wrote,
    -- at most the room there is. They are, in order, the reports that the events in the ring and then the
    -- new ones ask for, as far as there is room; the rest stays due. A driver that is not enabled
    -- writes none, and drops the events.
    pub read_events_got :
        (count : ℕ) (d : Driver F) (es : List InputEvent)
        → 0 < count
        → d.has_pending ≡ false
        → IsReader d.reader
        → length es ≤ d.reader.free_space
        → Reads count d (contents d.reader ++ es) (read_events kind decode now count (got es) d)
    read_events_got count d es c hp v l =
        rw (read_events_ready count d (got es) c hp) (elim (fill_lem d.reader (got es) v l) [
          | inl (full, same) ↦
              rw (same, nothing_fits es d.reader.free_space l full)
                (read_ring count d (pos 0, d.reader) 0 _ refl v
                  (sym (append-nil (contents d.reader))))
          | inr (space, (v', cs, n)) ↦
              read_ring count d (fill d.reader (got es)) (length es) _ n v' cs
        ])

    -- readEvents with room for at least one event, no pending event, and space in the ring, where read(2)
    -- fails or ends within an event, returns the negative error of `fill`, writes no event, and leaves the
    -- driver enabled as it was, with the same events waiting.
    pub read_events_error :
        (count : ℕ) (d : Driver F) (o : ReadOutcome) (k : ℕ)
        → 0 < count
        → d.has_pending ≡ false
        → IsReader d.reader
        → Fits d.reader o
        → 0 < d.reader.free_space
        → fill_result o ≡ negsuc k
        → (r : EventReader) × (read_events kind decode now count o d
            ≡ some (record { result = negsuc k; events = []; driver = record d { reader = r } }))
          × IsReader r
          × (contents r ≡ contents d.reader)
    read_events_error count d o k c hp v l space e =
        rw (read_events_ready count d o c hp) (elim (fill_lem d.reader o v l) [
          | inl (full, same) ↦ absurd (omega arith)
          | inr (room, (v', cs, n)) ↦ (
            (fill d.reader o).1,
            read_filled_negsuc count d (fill d.reader o) k (n ∙ e) ∙ ap returned (n ∙ e),
            v',
            rw cs (rw (arrived_error o k e) (append-nil (contents d.reader))),
          )
        ])
      where
        returned : ℤ → Option (Delivery F)
        returned n =
            some (record {
              result = n;
              events = [];
              driver = record d { reader = (fill d.reader o).1 };
            })

    -- A pending event is delivered, without a read.
    pub read_events_pending :
        (n : ℕ) (d : Driver F) (o : ReadOutcome)
        → d.has_pending ≡ true
        → read_events kind decode now (suc n) o d ≡ some (deliver_pending kind decode now d)
    unfolding read_events
    read_events_pending n d o hp = ground arith

    pub pending_counts :
        (d : Driver F) → d.enabled ≡ 1 → (deliver_pending kind decode now d).result ≡ pos 1
    unfolding deliver_pending
    pending_counts d en = ground arith
