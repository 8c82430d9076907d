-- ===== src/Audio/Capture/Rounds.antt =====
-- What one round of processFrames of libaudio/AudioHardware.cpp does with the frames in its buffers.
use android_device_samsung_a.Prelude.{
  ℕ, ◌+◌, ◌-◌, ◌≤◌, ◌<◌, ◌≡◌, ◌∙◌, refl, sym, ap, true, Bool-cases, ◌⊎◌, inl, inr, max, Option,
  none, some, Option-cases, List, [], ◌∷◌, ◌++◌, ltb, take, drop, length, length-append,
  length-drop, length-take, arith,
}
use mathlib.Core.List.{append_assoc}
use android_device_samsung_a.Prelude.Int.{ℤ, pos, negsuc}
use android_device_samsung_a.Audio.Capture.{ReadEnd, waiting, returned, read_frames}
use android_device_samsung_a.Audio.Capture.Order.{is_error, IsCapture, ahead, take-drop}
use android_device_samsung_a.Audio.Capture.Frames.{IsDelivered, read_frames-IsDelivered}
use android_device_samsung_a.Audio.Capture.Process.{
  Effect, EchoCalls, EchoBuffer, ProcessRound, update_echo_reference, push_echo_reference, push_if,
  Processing, AudioBuffers, Processed, run_effects, moved, filled, reload, process_round,
}

-- An effect takes no more frames than there are and writes no more than there is room for.
abbrev IsEffect : {F : Type 0} → Effect F → Type 0
IsEffect e = (n room : ℕ) → ((e n room).0 ≤ n) × (length (e n room).1 ≤ room)

abbrev AreEffects : {F : Type 0} → List (Effect F) → Type 0
AreEffects [] = Unit
AreEffects (e ∷ es) = IsEffect e × AreEffects es

-- The echo reference gives no more frames than it is asked for.
abbrev pub IsReference : {F : Type 0} → EchoCalls F → Type 0
IsReference {F} calls = (n : ℕ) (fs : List F) → calls.read_reference n ≡ some fs → length fs ≤ n

-- mRefBuf has room for its frames.
abbrev IsEchoBuffer : {F : Type 0} → Option (EchoBuffer F) → Type 0
IsEchoBuffer none = Unit
IsEchoBuffer (some e) = length e.ref_buf ≤ e.ref_buf_size

-- What the effects of a round do with `n` frames and room for `room`.
abbrev round_run : {F : Type 0} → ProcessRound F → ℕ → ℕ → AudioBuffers F
round_run r n room = run_effects r.effects (record { in_count = n; out_count = room; out = [] })

-- A round with an effect at least, of which the first to the last leave no frame, or all, or no more than they
-- consumed, so that memcpy moves what is left without an overlap.
abbrev pub IsRound : {F : Type 0} → ProcessRound F → Type 0
IsRound r =
    (0 < length r.effects)
    × AreEffects r.effects
    × IsReference r.echo_calls
    × ((n room : ℕ)
        → ((round_run r n room).in_count ≡ 0)
          ⊎ (n ≤ (round_run r n room).in_count + (round_run r n room).in_count))

-- Given frames and room, the round writes a frame or more.
abbrev pub IsWriting : {F : Type 0} → ProcessRound F → Type 0
IsWriting r = (n room : ℕ) → 0 < n → 0 < room → 0 < (round_run r n room).out_count

-- Rounds of which `k` at least write; the others may need more frames and write none.
abbrev pub AreRounds : {F : Type 0} → ℕ → List (ProcessRound F) → Type 0
AreRounds k [] = k ≡ 0
AreRounds k (r ∷ rs) = IsRound r × ((IsWriting r × AreRounds (k - 1) rs) ⊎ AreRounds k rs)

module _ {F : Type 0} where
  -- What the effects of a round leave, from what they find.
  abbrev IsRun : ℕ → ℕ → AudioBuffers F → Type 0
  IsRun n room b = (b.in_count ≤ n) × (b.out_count ≤ room) × (length b.out ≡ b.out_count)

  run_effects_further :
      (es : List (Effect F)) (n room : ℕ) (b : AudioBuffers F)
      → AreEffects es
      → IsRun n room b
      → IsRun n room (run_effects es b)
  unfolding run_effects
  run_effects_further [] n room b ok run = run
  run_effects_further (e ∷ es) n room b ok run =
      let (taken, wrote) = ok.0 b.in_count b.out_count in
      run_effects_further es n room _ ok.1
        (omega (arith, taken, run.0), omega (arith, wrote, run.1), refl)

  run_effects-IsRun :
      (es : List (Effect F)) (n room : ℕ)
      → 0 < length es
      → AreEffects es
      → IsRun n room (run_effects es (record { in_count = n; out_count = room; out = [] }))
  unfolding run_effects
  run_effects-IsRun [] n room some_effect ok = absurd (omega arith)
  run_effects-IsRun (e ∷ es) n room some_effect ok =
      let (taken, wrote) = ok.0 n room in run_effects_further es n room _ ok.1 (taken, wrote, refl)

  -- Without an overlap memcpy moves the frames.
  moved-drop :
      (overlapped : ℕ → List F → List F) (k : ℕ) (xs : List F)
      → (k ≡ 0) ⊎ (length xs ≤ k + k)
      → moved overlapped k xs ≡ drop k xs
  unfolding moved
  moved-drop overlapped k xs apart = ground (arith, apart)

  length-moved :
      (overlapped : ℕ → List F → List F) (k : ℕ) (xs : List F)
      → length (moved overlapped k xs) ≤ length xs
  unfolding moved
  length-moved overlapped k xs =
      ground (arith, length-drop k xs, length-take (length xs - k) (overlapped k xs))

  -- The frames behind those that the effects consumed.
  abbrev pub source : Processing F → List F
  source p = p.proc_buf ++ ahead p.capture

  -- mProcBuf has room for its frames, and mRefBuf for its.
  abbrev pub IsProcessing : Processing F → Type 0
  IsProcessing p = IsCapture p.capture × (length p.proc_buf ≤ p.proc_buf_size) × IsEchoBuffer p.echo

  update_echo_reference-fits :
      (calls : EchoCalls F) (buffered frames : ℕ) (e : EchoBuffer F)
      → IsReference calls
      → length e.ref_buf ≤ e.ref_buf_size
      → let e' = (update_echo_reference calls buffered frames e).1 in
        length e'.ref_buf ≤ e'.ref_buf_size
  unfolding update_echo_reference
  update_echo_reference-fits calls buffered frames e ok fits =
      elim (Option-cases (calls.read_reference (frames - length e.ref_buf))) [
        | inl m ↦ ground (arith, m)
        | inr (fs, m) ↦
            ground (arith, m, ok (frames - length e.ref_buf) fs m, length-append e.ref_buf fs)
      ]

  push_if-IsEchoBuffer :
      (overlapped : ℕ → List F → List F) (calls : EchoCalls F) (buffered frames : ℕ)
      (e : Option (EchoBuffer F))
      → IsReference calls
      → IsEchoBuffer e
      → IsEchoBuffer (push_if overlapped calls buffered frames e)
  unfolding push_echo_reference
  push_if-IsEchoBuffer overlapped calls buffered frames none ok fits = tt
  push_if-IsEchoBuffer overlapped calls buffered frames (some e) ok fits =
      let e1 = (update_echo_reference calls buffered frames e).1 in
      let fits1 = update_echo_reference-fits calls buffered frames e ok fits in
      omega (arith, length-moved overlapped _ e1.ref_buf, fits1)

  -- What the reloading of mProcBuf does.
  abbrev pub IsReloaded : ℕ → Processing F → Option (ℤ × Processing F) → Type 0
  IsReloaded frames p none = length (source p) < frames
  IsReloaded frames p (some (pos n, p')) =
      IsProcessing p' × (source p' ≡ source p) × (frames ≤ length p'.proc_buf)
  IsReloaded frames p (some (negsuc n, p')) =
      IsProcessing p'
      × (p'.proc_buf ≡ p.proc_buf)
      × (lost : List F) × (p.proc_buf ++ (lost ++ ahead p'.capture) ≡ source p)

  filled-IsReloaded :
      (frames size : ℕ) (p : Processing F) (r : ReadEnd F)
      → length p.proc_buf < frames
      → IsDelivered (frames - length p.proc_buf) (frames - length p.proc_buf) p.capture r
      → frames ≤ size
      → IsEchoBuffer p.echo
      → IsReloaded frames p (filled (record p { proc_buf_size = size }) r)
  filled-IsReloaded frames size p waiting short d enough e =
      omega (arith, d, length-append p.proc_buf (ahead p.capture))
  filled-IsReloaded frames size p (returned (negsuc n) fs c) short d enough e =
      ((d.0, omega arith, e), refl, fs, ap (p.proc_buf ++◌) d.1)
  filled-IsReloaded frames size p (returned (pos n) fs c) short d enough e =
      let got_all : length fs ≡ frames - length p.proc_buf = elim d.2 [
        | inl (same, l) ↦ l
        | inr failed ↦ cc
      ] in
      let total = length-append p.proc_buf fs in
      (
        (d.0, omega (arith, total, got_all, enough), e),
        append_assoc p.proc_buf fs (ahead c) ∙ ap (p.proc_buf ++◌) d.1,
        omega (arith, total, got_all),
      )

  pub reload-IsReloaded :
      (frames : ℕ) (p : Processing F) → IsProcessing p → IsReloaded frames p (reload true frames p)
  unfolding reload
  reload-IsReloaded frames p ok = elim (Bool-cases (ltb (length p.proc_buf) frames)) [
    | inl e ↦ rw e (
        filled-IsReloaded frames (max p.proc_buf_size frames) p
          (read_frames true (frames - length p.proc_buf) p.capture) (ground (arith, e))
          (read_frames-IsDelivered (frames - length p.proc_buf) p.capture ok.0) (omega arith) ok.2)
    | inr e ↦ rw e (ok, refl, ground (arith, e))
  ]

  pub process_round-kept :
      (overlapped : ℕ → List F → List F) (r : ProcessRound F) (room : ℕ) (p : Processing F)
      → IsRound r
      → 0 < length p.proc_buf
      → 0 < room
      → IsProcessing p
      → let (b, q) = process_round overlapped r room p in
        IsRun (length p.proc_buf) room b
        × IsProcessing q
        × (take b.in_count p.proc_buf ++ source q ≡ source p)
        × (IsWriting r → 0 < b.out_count)
  unfolding process_round
  process_round-kept overlapped r room p ok some_in some_room fine =
      let n = length p.proc_buf in
      let b = round_run r n room in
      let left = moved overlapped b.in_count p.proc_buf in
      let kept : left ≡ drop b.in_count p.proc_buf =
        moved-drop overlapped b.in_count p.proc_buf (ok.3 n room) in
      (
        run_effects-IsRun r.effects n room ok.0 ok.1,
        (
          fine.0,
          omega (arith, length-moved overlapped b.in_count p.proc_buf, fine.1),
          push_if-IsEchoBuffer overlapped r.echo_calls (p.capture.input_frames_in + n) n p.echo ok.2
              fine.2,
        ),
        ap (λ q. take b.in_count p.proc_buf ++ (q ++ ahead p.capture)) kept
            ∙ sym (
                append_assoc (take b.in_count p.proc_buf) (drop b.in_count p.proc_buf)
                  (ahead p.capture))
            ∙ ap (◌++ ahead p.capture) (take-drop b.in_count p.proc_buf),
        (λ writing. writing n room some_in some_room),
      )

  -- The rest of a call with `w` frames written, from a driver and a stream that have the frames `fs`.
  abbrev pub IsProcessed : ℕ → ℕ → List F → Option (Processed F) → Type 0
  IsProcessed frames w fs none =
      (taken : List F) × (rest : List F) × (taken ++ rest ≡ fs) × (length rest < frames)
  IsProcessed frames w fs (some x) =
      IsProcessing x.stream
      × (((x.result ≡ pos frames)
            × (w + length x.written ≡ frames)
            × (x.consumed ++ source x.stream ≡ fs))
          ⊎ ((is_error x.result ≡ true)
              × (lost : List F) × (x.consumed
                    ++ (x.stream.proc_buf ++ (lost ++ ahead x.stream.capture))
                  ≡ fs)))
