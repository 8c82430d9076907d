-- ===== src/Sensors/Poll/Rounds.antt =====
-- Where pollEvents of libsensors/sensors.cpp puts the events, and what a failed read does to that.
use android_device_samsung_a.Prelude.{
  ◌⊎◌, ℕ, zero, suc, ◌+◌, ◌-◌, ◌≤◌, ◌<◌, ◌≡◌, inl, inr, refl, ap, ap₂, ◌∙◌, ◌||◌, true, false,
  Option, some, List, [], ◌∷◌, ◌++◌, length, Bool-cases, arith,
}
use android_device_samsung_a.Prelude.Int.{ℤ, pos, negsuc, diff, ◌+ℤ◌, ◌-ℤ◌}
use android_device_samsung_a.Sensors.Reader.{InputEvent, EventReader, ReadOutcome, got}
use android_device_samsung_a.Sensors.Reader.Contents.{IsReader}
use android_device_samsung_a.Sensors.Reader.Queue.{Fits, fill_result}
use android_device_samsung_a.Sensors.Driver.{SensorEvent, Delivery, read_events, deliver_pending}
use android_device_samsung_a.Sensors.Driver.Reads.{
  read_events_got, read_events_error, read_events_pending, pending_counts,
}
use android_device_samsung_a.Sensors.Poll.{PollSensor, Scan, place, consider, join, scan_sensors}

diff_le : (m n : ℕ) → n ≤ m → diff m n ≡ pos (m - n)
diff_le m n l = ground arith

before_array : (e : ℕ) → pos 0 +ℤ negsuc e ≡ negsuc e
before_array e = ground arith

-- The `n` numbers from `k` on.
abbrev pub from : ℕ → ℕ → List ℤ
from k zero = []
from k (suc n) = pos k ∷ from (suc k) n

module _ {F : Type 0} where
  -- A driver with a sound ring, and, unless it is enabled, no pending event.
  abbrev pub IsSound : PollSensor F → Type 0
  IsSound s = IsReader s.driver.reader × ((s.driver.has_pending ≡ false) ⊎ (s.driver.enabled ≡ 1))

  abbrev pub AllSound : List (PollSensor F) → Type 0
  AllSound [] = Unit {0}
  AllSound (s ∷ ss) = IsSound s × AllSound ss

  -- The events of read(2) fit into the ring of every sensor, which is sensor `i` and those behind it.
  abbrev pub AllFit : (ℕ → List InputEvent) → ℕ → List (PollSensor F) → Type 0
  AllFit news i [] = Unit {0}
  AllFit news i (s ∷ ss) =
      IsSound s × (length (news i) ≤ s.driver.reader.free_space) × AllFit news (suc i) ss

  AllFit-AllSound :
      (news : ℕ → List InputEvent) (i : ℕ) (ss : List (PollSensor F))
      → AllFit news i ss
      → AllSound ss
  AllFit-AllSound news i [] a = tt
  AllFit-AllSound news i (s ∷ ss) (v, l, a) = (v, AllFit-AllSound news (suc i) ss a)

  -- The places that were written, in the order of writing.
  abbrev pub places : List (ℤ × SensorEvent F) → List ℤ
  places [] = []
  places ((i, e) ∷ ws) = i ∷ places ws

  pub places-place :
      (k : ℕ) (es : List (SensorEvent F)) (ws : List (ℤ × SensorEvent F)) (t : ℕ)
      → places ws ≡ from (k + length es) t
      → places (place (pos k) es ++ ws) ≡ from k (length es + t)
  places-place k [] ws t h = h ∙ ap₂ from (omega arith) (omega arith)
  places-place k (e ∷ es) ws t h =
      let one_more : suc (length es + t) ≡ suc (length es) + t = omega arith in
      ap (λ r. pos k ∷ r) (places-place (suc k) es ws t (h ∙ ap (λ i. from i t) (omega arith)))
      ∙ ap (from k) one_more

  -- A scan that began with `n` free places and `k` events has written `t` more, at the places from `k`
  -- on, in order and within the free places, and counts them right.
  abbrev pub Scans : ℕ → ℕ → Option (Scan F) → Type 0
  Scans n k result =
      (r : Scan F) × (result ≡ some r)
      × ((t : ℕ) × (t ≤ n)
          × (r.count ≡ pos (n - t))
          × (r.nb_events ≡ pos (k + t))
          × (places r.written ≡ from k t))
      × AllSound r.sensors

  pub scan_ready :
      (o : ℕ → ReadOutcome) (clock : ℕ → ℕ) (i n : ℕ) (nb : ℤ) (s : PollSensor F)
      (ss : List (PollSensor F)) (x : Delivery F)
      → (s.revents || s.driver.has_pending) ≡ true
      → read_events s.kind s.decode clock (suc n) (o i) s.driver ≡ some x
      → scan_sensors o clock i (s ∷ ss) (pos (suc n)) nb
        ≡ join
            (place nb x.events)
            (consider s (pos (suc n)) x)
            (scan_sensors o clock (suc i) ss (pos (suc n) -ℤ x.result) (nb +ℤ x.result))
  unfolding scan_sensors
  scan_ready o clock i n nb s ss x b e = rw (b, e, scan_sensors) refl

  scan_idle :
      (o : ℕ → ReadOutcome) (clock : ℕ → ℕ) (i n k : ℕ) (s : PollSensor F)
      (ss : List (PollSensor F))
      → (s.revents || s.driver.has_pending) ≡ false
      → scan_sensors o clock i (s ∷ ss) (pos (suc n)) (pos k)
        ≡ join [] s (scan_sensors o clock (suc i) ss (pos (suc n)) (pos k))
  unfolding scan_sensors
  scan_idle o clock i n k s ss b = rw (b, scan_sensors) refl

  join-Scans :
      (n n' k k' l : ℕ) (es : List (SensorEvent F)) (s : PollSensor F) (result : Option (Scan F))
      → length es ≡ l
      → n' + l ≡ n
      → k + l ≡ k'
      → IsSound s
      → Scans n' k' result
      → Scans n k (join (place (pos k) es) s result)
  join-Scans n n' k k' l es s result e m p v (r, same, (t, lt, c, nb, ps), a) = rw same (
    record r { sensors = s ∷ r.sensors; written = place (pos k) es ++ r.written },
    refl,
    (
      l + t,
      omega arith,
      c ∙ ap pos (omega arith),
      nb ∙ ap pos (omega arith),
      places-place k es r.written t (ps ∙ ap (λ i. from i t) (omega arith))
          ∙ ap (from k) (omega arith),
    ),
    (v, a),
  )

  go_on :
      (o : ℕ → ReadOutcome) (clock : ℕ → ℕ) (i : ℕ) (ss : List (PollSensor F)) (n k : ℕ) (c b : ℤ)
      → c ≡ pos n
      → b ≡ pos k
      → Scans n k (scan_sensors o clock i ss (pos n) (pos k))
      → Scans n k (scan_sensors o clock i ss c b)
  go_on o clock i ss n k c b e g h = rw (e, g) h

  -- What readEvents of such a driver does with room for `suc n` events: it returns how many it wrote.
  abbrev Turn : ℕ → PollSensor F → Option (Delivery F) → Type 0
  Turn n s result =
      (x : Delivery F) × (result ≡ some x)
      × (x.result ≡ pos (length x.events))
      × (length x.events ≤ suc n)
      × IsSound (record s { driver = x.driver })

  read_pending_lem :
      (clock : ℕ → ℕ) (n : ℕ) (s : PollSensor F) (o : ReadOutcome)
      → IsReader s.driver.reader
      → s.driver.has_pending ≡ true
      → s.driver.enabled ≡ 1
      → Turn n s (read_events s.kind s.decode clock (suc n) o s.driver)
  unfolding deliver_pending
  read_pending_lem clock n s o v hp en = (
    deliver_pending s.kind s.decode clock s.driver,
    read_events_pending s.kind s.decode clock n s.driver o hp,
    pending_counts s.kind s.decode clock s.driver en,
    omega arith,
    (v, inl refl),
  )

  read_fresh_lem :
      (clock : ℕ → ℕ) (n : ℕ) (s : PollSensor F) (es : List InputEvent)
      → IsReader s.driver.reader
      → s.driver.has_pending ≡ false
      → length es ≤ s.driver.reader.free_space
      → Turn n s (read_events s.kind s.decode clock (suc n) (got es) s.driver)
  read_fresh_lem clock n s es v hp l =
      let (x, same, res, d) =
        read_events_got s.kind s.decode clock (suc n) s.driver es (omega arith) hp v l in
      (x, same, res, d.1, (d.0, inl (d.5 ∙ hp)))

  read_sound_lem :
      (clock : ℕ → ℕ) (n : ℕ) (s : PollSensor F) (es : List InputEvent)
      → IsSound s
      → length es ≤ s.driver.reader.free_space
      → Turn n s (read_events s.kind s.decode clock (suc n) (got es) s.driver)
  read_sound_lem clock n s es (v, inl hp) l = read_fresh_lem clock n s es v hp l
  read_sound_lem clock n s es (v, inr en) l = elim (Bool-cases s.driver.has_pending) [
    | inl hp ↦ read_pending_lem clock n s (got es) v hp en
    | inr hp ↦ read_fresh_lem clock n s es v hp l
  ]

  -- A scan of drivers with a sound ring, those with a pending event enabled, where read(2) delivers whole
  -- events that fit, returns; the events that it writes go to consecutive places, from the first free
  -- one on and within the room that there is; `count` and `nbEvents` are those of before, less and plus
  -- their number; and the drivers are such again.
  pub scan_sensors_lem :
      (news : ℕ → List InputEvent) (clock : ℕ → ℕ) (i : ℕ) (ss : List (PollSensor F)) (n k : ℕ)
      → AllFit news i ss
      → Scans n k (scan_sensors (λ j. got (news j)) clock i ss (pos n) (pos k))
  unfolding scan_sensors
  scan_sensors_lem news clock i [] n k a =
      (_, refl, (0, omega arith, ap pos (omega arith), ap pos (omega arith), refl), tt)
  scan_sensors_lem news clock i (s ∷ ss) zero k a = (
    _,
    refl,
    (0, omega arith, refl, ap pos (omega arith), refl),
    AllFit-AllSound news i (s ∷ ss) a,
  )
  scan_sensors_lem news clock i (s ∷ ss) (suc n) k (v, l, a) =
      elim (Bool-cases (s.revents || s.driver.has_pending)) [
        | inl b ↦
            let (x, same, res, fits, w) = read_sound_lem clock n s (news i) v l in
            let left : suc n - length x.events + length x.events ≡ suc n = omega arith in
            rw (scan_ready (λ j. got (news j)) clock i n (pos k) s ss x b same) (
              join-Scans (suc n) (suc n - length x.events) k (k + length x.events) (length x.events)
                x.events (consider s (pos (suc n)) x) _ refl left refl w
                (go_on (λ j. got (news j)) clock (suc i) ss (suc n - length x.events)
                  (k + length x.events) _ _
                  (ap (λ q. pos (suc n) -ℤ q) res ∙ diff_le (suc n) (length x.events) fits)
                  (ap (λ q. pos k +ℤ q) res)
                  (scan_sensors_lem news clock (suc i) ss (suc n - length x.events)
                    (k + length x.events) a)))
        | inr b ↦ rw (scan_idle (λ j. got (news j)) clock i n k s ss b) (
            join-Scans (suc n) (suc n) k k 0 [] s _ refl (omega arith) (omega arith) v
              (scan_sensors_lem news clock (suc i) ss (suc n) k a))
      ]

  -- A driver whose read gives -(e + 1) is counted as having written that many events.
  pub scan_error :
      (o : ℕ → ReadOutcome) (clock : ℕ → ℕ) (i n e : ℕ) (s : PollSensor F)
      (ss : List (PollSensor F))
      → s.revents ≡ true
      → s.driver.has_pending ≡ false
      → IsReader s.driver.reader
      → Fits s.driver.reader (o i)
      → 0 < s.driver.reader.free_space
      → fill_result (o i) ≡ negsuc e
      → (r : EventReader) × (scan_sensors o clock i (s ∷ ss) (pos (suc n)) (pos 0)
          ≡ join []
              (record s { driver = record s.driver { reader = r }; revents = false })
              (scan_sensors o clock (suc i) ss (pos (suc n + suc e)) (negsuc e)))
  scan_error o clock i n e s ss b hp v l space h =
      let (r, same, w, ws) =
        read_events_error s.kind s.decode clock (suc n) s.driver (o i) e (omega arith) hp v l space
          h in
      (
        r,
        scan_ready o clock i n (pos 0) s ss _ (ap (λ q. q || s.driver.has_pending) b) same
            ∙ ap
                (λ q.
                  join [] (record s { driver = record s.driver { reader = r }; revents = false })
                    (scan_sensors o clock (suc i) ss (pos (suc n + suc e)) q))
                (before_array e),
      )
