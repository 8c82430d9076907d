-- ===== src/Sensors/Poll/Loop.antt =====
-- What pollEvents of libsensors/sensors.cpp returns, over its rounds.
use android_device_samsung_a.Prelude.{
  ℕ, zero, suc, ◌+◌, ◌-◌, ◌≤◌, ◌<◌, ◌≡◌, ◌⊎◌, inl, inr, refl, sym, ap, ap₂, subst, ◌∙◌, Bool, true,
  false, Option, none, some, List, [], ◌∷◌, ◌++◌, Bool-cases, arith,
}
use android_device_samsung_a.Prelude.Int.{ℤ, pos}
use android_device_samsung_a.Sensors.Reader.{InputEvent, got, neg}
use android_device_samsung_a.Sensors.Driver.{SensorEvent}
use android_device_samsung_a.Sensors.Poll.{
  PollSensor, Scan, PollRound, PollOutcome, poll_failed, ready, PollEnd, is_zero, scan_sensors,
  set_revents, write_first, poll_events,
}
use android_device_samsung_a.Sensors.Poll.Rounds.{AllFit, places, from, scan_sensors_lem}

-- A round: the events that read(2) delivers for each sensor, the clock, and poll(2).
abbrev pub Round : Type 0
Round = (ℕ → List InputEvent) × (ℕ → ℕ) × PollOutcome

abbrev pub to_rounds : List Round → List PollRound
to_rounds [] = []
to_rounds ((news, clock, p) ∷ rs) =
    record { outcome = λ j. got (news j); clock = clock; polled = p } ∷ to_rounds rs

-- In one of the rounds poll(2) fails or finds nothing ready.
abbrev pub ends : List Round → Bool
ends [] = false
ends ((news, clock, ready (suc n) flags) ∷ rs) = ends rs
ends (_ ∷ rs) = true

-- The errno of poll(2), where it fails before it finds nothing ready.
abbrev pub failure : List Round → Option ℕ
failure [] = none
failure ((news, clock, ready (suc n) flags) ∷ rs) = failure rs
failure ((news, clock, ready zero flags) ∷ rs) = none
failure ((news, clock, poll_failed errno) ∷ rs) = some errno

from-add : (k t u : ℕ) → from k t ++ from (k + t) u ≡ from k (t + u)
from-add k zero u = ap₂ from (omega arith) (omega arith)
from-add k (suc t) u =
    let along : k + suc t ≡ suc k + t = omega arith in
    let more : suc (t + u) ≡ suc t + u = omega arith in
    ap (λ r. pos k ∷ r) (ap (λ i. from (suc k) t ++ from i u) along ∙ from-add (suc k) t u)
    ∙ ap (from k) more

zero_left : (n : ℕ) → is_zero (pos n) ≡ true → n ≡ 0
zero_left zero e = refl
zero_left (suc n) e = cc

some_left : (n : ℕ) → is_zero (pos n) ≡ false → 0 < n
some_left zero e = cc
some_left (suc n) e = omega arith

module _ {F : Type 0} where
  abbrev pub after : PollOutcome → List (PollSensor F) → List (PollSensor F)
  after (poll_failed e) ss = ss
  after (ready n flags) ss = set_revents flags ss

  -- The events of each round fit into the rings as they are then, and the drivers are sound, with a
  -- pending event only where they are enabled.
  unfoldable pub Fed : List Round → List (PollSensor F) → ℤ → ℤ → Type 0
  Fed [] ss c nb = Unit {0}
  Fed ((news, clock, p) ∷ rs) ss c nb =
      AllFit news 0 ss × (elim (scan_sensors (λ j. got (news j)) clock 0 ss c nb) [
        | none ↦ Unit {0}
        | some s ↦ Fed rs (after p s.sensors) s.count s.nb_events
      ])

  both : (v w : List (ℤ × SensorEvent F)) → places (v ++ w) ≡ places v ++ places w
  both [] w = refl
  both ((i, e) ∷ v) w = ap (λ r. i ∷ r) (both v w)

  places-append :
      (k t u : ℕ) (v w : List (ℤ × SensorEvent F))
      → places v ≡ from k t
      → places w ≡ from (k + t) u
      → places (v ++ w) ≡ from k (t + u)
  places-append k t u v w p q = both v w ∙ ap₂ ◌++◌ p q ∙ from-add k t u

  -- With `fail` the errno of the poll(2) that ends the loop, if it fails: `t` of `n` places were written,
  -- and their number is returned where they are all the places or nothing was ready, and the error
  -- where there was a place left.
  abbrev pub Polls : Option ℕ → ℕ → ℕ → Option (PollEnd F) → Type 0
  Polls fail n k result =
      (e : PollEnd F) × (result ≡ some e)
      × ((t : ℕ) × (t ≤ n)
          × (places e.written ≡ from k t)
          × (((e.result ≡ pos (k + t)) × ((t ≡ n) ⊎ (fail ≡ none)))
              ⊎ ((t < n) × (errno : ℕ) × (fail ≡ some errno) × (e.result ≡ neg errno))))

  poll_full :
      (r : PollRound) (rs : List PollRound) (ss : List (PollSensor F)) (c nb : ℤ) (s : Scan F)
      → scan_sensors r.outcome r.clock 0 ss c nb ≡ some s
      → is_zero s.count ≡ true
      → poll_events (r ∷ rs) ss c nb
        ≡ some (record { result = s.nb_events; sensors = s.sensors; written = s.written })
  unfolding poll_events
  poll_full r rs ss c nb s e z = rw (e, poll_events, z) refl

  poll_again :
      (r : PollRound) (rs : List PollRound) (ss : List (PollSensor F)) (c nb : ℤ) (s : Scan F)
      → scan_sensors r.outcome r.clock 0 ss c nb ≡ some s
      → is_zero s.count ≡ false
      → poll_events (r ∷ rs) ss c nb ≡ elim r.polled [
        | poll_failed errno ↦
            some (record { result = neg errno; sensors = s.sensors; written = s.written })
        | ready zero flags ↦ some (record {
          result = s.nb_events;
          sensors = set_revents flags s.sensors;
          written = s.written;
        })
        | ready (suc n) flags ↦
            write_first s.written (poll_events rs (set_revents flags s.sensors) s.count s.nb_events)
      ]
  unfolding poll_events
  poll_again r rs ss c nb s e z = rw (e, poll_events, z) refl

  Fed-next :
      (rs : List Round) (p : PollOutcome) (o : Option (Scan F)) (r : Scan F)
      → o ≡ some r
      → elim o as (λ x. Type 0) [
        | none ↦ Unit {0}
        | some s ↦ Fed rs (after p s.sensors) s.count s.nb_events
      ]
      → Fed rs (after p r.sensors) r.count r.nb_events
  Fed-next rs p o r e h =
      subst
        (λ q. elim q as (λ x. Type 0) [
          | none ↦ Unit {0}
          | some s ↦ Fed rs (after p s.sensors) s.count s.nb_events
        ])
        e h

  -- The scan of a round, and what comes behind it where there are places left.
  round_lem :
      (rd : PollRound) (rs : List PollRound) (ss : List (PollSensor F)) (fail : Option ℕ)
      (n k t : ℕ) (r : Scan F)
      → scan_sensors rd.outcome rd.clock 0 ss (pos n) (pos k) ≡ some r
      → t ≤ n
      → r.count ≡ pos (n - t)
      → r.nb_events ≡ pos (k + t)
      → places r.written ≡ from k t
      → (t < n
          → Polls fail n k (elim rd.polled [
            | poll_failed errno ↦
                some (record { result = neg errno; sensors = r.sensors; written = r.written })
            | ready zero flags ↦ some (record {
              result = r.nb_events;
              sensors = set_revents flags r.sensors;
              written = r.written;
            })
            | ready (suc m) flags ↦
                write_first r.written
                  (poll_events rs (set_revents flags r.sensors) r.count r.nb_events)
          ]))
      → Polls fail n k (poll_events (rd ∷ rs) ss (pos n) (pos k))
  round_lem rd rs ss fail n k t r same l c nb ps behind = elim (Bool-cases (is_zero r.count)) [
    | inl z ↦
        let full : t ≡ n = omega (arith, l, zero_left (n - t) (sym (ap is_zero c) ∙ z)) in
        rw (poll_full rd rs ss (pos n) (pos k) r same z) (_, refl, (t, l, ps, inl (nb, inl full)))
    | inr z ↦
        let left : t < n = omega (arith, l, some_left (n - t) (sym (ap is_zero c) ∙ z)) in
        rw (poll_again rd rs ss (pos n) (pos k) r same z) (behind left)
  ]

  write_first-Polls :
      (fail : Option ℕ) (n k t : ℕ) (w : List (ℤ × SensorEvent F)) (result : Option (PollEnd F))
      → t ≤ n
      → places w ≡ from k t
      → Polls fail (n - t) (k + t) result
      → Polls fail n k (write_first w result)
  write_first-Polls fail n k t w result l ps (e, same, (u, m, qs, res)) = rw same (
    record e { written = w ++ e.written },
    refl,
    (t + u, omega arith, places-append k t u w e.written ps qs, counted res),
  )
    where
      counted :
          (((e.result ≡ pos (k + t + u)) × ((u ≡ n - t) ⊎ (fail ≡ none)))
            ⊎ ((u < n - t) × (errno : ℕ) × (fail ≡ some errno) × (e.result ≡ neg errno)))
          → (((e.result ≡ pos (k + (t + u))) × ((t + u ≡ n) ⊎ (fail ≡ none)))
              ⊎ ((t + u < n) × (errno : ℕ) × (fail ≡ some errno) × (e.result ≡ neg errno)))
      counted (inl (h, inl full)) = inl (h ∙ ap pos (omega arith), inl (omega (arith, full, l)))
      counted (inl (h, inr over)) = inl (h ∙ ap pos (omega arith), inr over)
      counted (inr (left, errno, failed, h)) = inr (omega (arith, left), errno, failed, h)

  go_on :
      (rs : List Round) (ss : List (PollSensor F)) (fail : Option ℕ) (n k : ℕ) (c b : ℤ)
      → c ≡ pos n
      → b ≡ pos k
      → (Fed rs ss (pos n) (pos k) → Polls fail n k (poll_events (to_rounds rs) ss (pos n) (pos k)))
      → Fed rs ss c b
      → Polls fail n k (poll_events (to_rounds rs) ss c b)
  go_on rs ss fail n k c b e g h fed =
      rw (e, g) (h (subst (λ q. Fed rs ss q (pos k)) e (subst (λ q. Fed rs ss c q) g fed)))

  -- pollEvents with `n` places and `k` events counted, on rounds whose events fit into the rings,
  -- with sound drivers of which those with a pending event are enabled, and with a round in which poll(2)
  -- fails or finds nothing ready, returns; it has written `t` events, for some `t` of at most `n`, at the
  -- places from `k` on, each once and in order. It returns `k + t`, and then the `n` places are full or the
  -- first poll(2) that did not find something ready found nothing; or there are places left, that poll(2)
  -- failed, and its negative errno is returned.
  pub poll_events_lem :
      (rounds : List Round) (ss : List (PollSensor F)) (n k : ℕ)
      → ends rounds ≡ true
      → Fed rounds ss (pos n) (pos k)
      → Polls (failure rounds) n k (poll_events (to_rounds rounds) ss (pos n) (pos k))
  unfolding Fed
  poll_events_lem [] ss n k en h = cc
  poll_events_lem ((news, clock, poll_failed e) ∷ rs) ss n k en (fit, h) =
      let (r, same, (t, l, c, nb, ps), a) = scan_sensors_lem news clock 0 ss n k fit in
      round_lem _ (to_rounds rs) ss (some e) n k t r same l c nb ps
        (λ left. (_, refl, (t, l, ps, inr (left, e, refl, refl))))
  poll_events_lem ((news, clock, ready zero flags) ∷ rs) ss n k en (fit, h) =
      let (r, same, (t, l, c, nb, ps), a) = scan_sensors_lem news clock 0 ss n k fit in
      round_lem _ (to_rounds rs) ss none n k t r same l c nb ps
        (λ left. (_, refl, (t, l, ps, inl (nb, inr refl))))
  poll_events_lem ((news, clock, ready (suc m) flags) ∷ rs) ss n k en (fit, h) =
      let (r, same, (t, l, c, nb, ps), a) = scan_sensors_lem news clock 0 ss n k fit in
      round_lem _ (to_rounds rs) ss (failure rs) n k t r same l c nb ps (λ left.
        write_first-Polls (failure rs) n k t r.written _ l ps (
          go_on rs (set_revents flags r.sensors) (failure rs) (n - t) (k + t) r.count r.nb_events c
            nb (poll_events_lem rs (set_revents flags r.sensors) (n - t) (k + t) en)
            (Fed-next rs (ready (suc m) flags) _ r same h)))
