-- ===== src/Audio/Capture/Frames.antt =====
-- readFrames of libaudio/AudioHardware.cpp against the driver as one stream of frames.
use android_device_samsung_a.Prelude.{
  ℕ, zero, suc, ◌-◌, ◌≤◌, ◌<◌, ◌≡◌, ◌∙◌, refl, sym, ap, subst, true, Bool-cases, ◌⊎◌, inl, inr,
  Option, none, some, List, [], ◌∷◌, ◌++◌, ◌==◌, length, length-append, if◌then◌else◌, arith,
}
use mathlib.Core.List.{append_assoc}
use android_device_samsung_a.Prelude.Int.{pos}
use android_device_samsung_a.Audio.Capture.{
  Capture, Buffer, ReadEnd, waiting, returned, get_next_buffer, release_buffer, copied, is_read_ok,
  more, copied_or_end, went_on, read_rounds, read_frames,
}
use android_device_samsung_a.Audio.Capture.Order.{
  is_error, status-is_error, IsCapture, ahead, IsRound, IsReturned, round,
}

module _ {F : Type 0} where
  -- `left` frames of `ahead c` that are delivered, as far as no error comes, or that the driver has not.
  abbrev pub IsDelivered : ℕ → ℕ → Capture F → ReadEnd F → Type 0
  IsDelivered frames left c waiting = length (ahead c) < left
  IsDelivered frames left c (returned status xs c') =
      IsCapture c'
      × (xs ++ ahead c' ≡ ahead c)
      × (((status ≡ pos frames) × (length xs ≡ left)) ⊎ (is_error status ≡ true))

  after_round :
      (frames left : ℕ) (c : Capture F) (b : Buffer F) (c' : Capture F) (r : ReadEnd F)
      → IsRound left c b c'
      → is_read_ok c'.read_status ≡ true
      → IsDelivered frames (left - length (copied b)) c' r
      → IsDelivered frames left c (more (copied b) r)
  after_round frames left c b c' waiting ok fine short =
      let whole = ap length ok.1 in
      let parts = length-append (copied b) (ahead c') in omega (arith, whole, parts, short, ok.2)
  after_round frames left c b c' (returned status xs c'') ok fine done = (
    done.0,
    append_assoc (copied b) xs (ahead c'') ∙ ap (copied b ++◌) done.1 ∙ ok.1,
    elim done.2 [
      | inl (e, l) ↦ inl (e, omega (arith, length-append (copied b) xs, l, ok.2))
      | inr e ↦ inr e
    ],
  )

  empty_lem : (xs : List F) → length xs ≤ 0 → xs ≡ []
  empty_lem [] h = refl
  empty_lem (x ∷ xs) h = absurd (omega arith)

  went_on-IsDelivered :
      (frames left : ℕ) (c : Capture F) (next_rounds : ℕ → Capture F → ReadEnd F)
      (o : Option (Buffer F × Capture F))
      → 0 < left
      → IsReturned left c o
      → ((n : ℕ) (c' : Capture F)
          → IsCapture c'
          → 0 < n
          → n ≤ left
          → IsDelivered frames (left - n) c' (next_rounds n c'))
      → IsDelivered frames left c (went_on next_rounds o)
  unfolding went_on copied_or_end IsReturned
  went_on-IsDelivered frames left c next_rounds none some_left r rest = omega (arith, r, some_left)
  went_on-IsDelivered frames left c next_rounds (some (b, c')) some_left r rest =
      elim (Bool-cases (is_read_ok (release_buffer b c').read_status)) [
        | inl e ↦
            let d = release_buffer b c' in
            let some_copied = subst (λ t. 0 < (if t then length (copied b) else 1)) e r.4 in
            subst (λ t. IsDelivered frames left c (copied_or_end next_rounds b d t)) (sym e)
              (after_round frames left c b d (next_rounds (length (copied b)) d) r e
                (rest (length (copied b)) d r.0 some_copied r.2))
        | inr e ↦
            let none_copied = subst (λ t. length (copied b) ≤ (if t then left else 0)) e r.3 in
            let same =
              ap (◌++ ahead (release_buffer b c')) (sym (empty_lem (copied b) none_copied)) in
            subst
              (λ t. IsDelivered frames left c (copied_or_end next_rounds b (release_buffer b c') t))
              (sym e)
              (r.0, same ∙ r.1, inr (status-is_error (release_buffer b c').read_status r.0.4 e))
      ]

  read_rounds-IsDelivered :
      (fuel frames left : ℕ) (c : Capture F)
      → IsCapture c
      → left ≤ fuel
      → IsDelivered frames left c (read_rounds fuel true frames left c)
  unfolding read_rounds
  read_rounds-IsDelivered zero frames left c ok enough =
      (ok, refl, inl (refl, omega (arith, enough)))
  read_rounds-IsDelivered (suc fuel) frames left c ok enough = elim (Bool-cases (left == 0)) [
    | inl e ↦ rw e (ok, refl, inl (refl, (let n : 0 ≡ left = ground (arith, e) in n)))
    | inr e ↦
        let some_left : 0 < left = ground (arith, e) in
        rw e (
          went_on-IsDelivered frames left c (λ n c'. read_rounds fuel true frames (left - n) c')
            (get_next_buffer true left c) some_left
            (round left c.input_frames_in c.input_buf c.read_status c.reads ok some_left)
            (λ n c' ok' pos_n le.
              read_rounds-IsDelivered fuel frames (left - n) c' ok' (omega (arith, enough, pos_n))))
  ]

-- readFrames on a stream with its device, of a whole period or none, from a driver that gives whole periods
-- or negative errors: it returns the number of frames asked for, or an error, or waits because the driver has
-- fewer frames than were asked for before its next return. When it returns, the frames it wrote, then those
-- that it keeps, then those still to come are the frames the driver had, in order: none is lost, none
-- comes twice. With the number it was asked for it has written as many.
pub read_frames-IsDelivered :
    {F : Type 0} (frames : ℕ) (c : Capture F)
    → IsCapture c
    → IsDelivered frames frames c (read_frames true frames c)
unfolding read_frames
read_frames-IsDelivered frames c ok =
    read_rounds-IsDelivered frames frames frames c ok (omega arith)
