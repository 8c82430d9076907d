-- ===== src/Audio/Capture/Process.antt =====
-- The capture through effects of libaudio/AudioHardware.cpp: processFrames, pushEchoReference,
-- updateEchoReference and getCaptureDelay of AudioStreamInALSA, without a resampler.
use android_device_samsung_a.Prelude.{
  ℕ, suc, ◌+◌, ◌-◌, ◌*◌, ◌/◌, ◌%◌, ◌^◌, min, max, Bool, ◌&&◌, Option, none, some, List, [], ◌∷◌,
  ◌++◌, ltb, leb, take, drop, length, if◌then◌else◌,
}
use android_device_samsung_a.Prelude.Int.{ℤ, pos, negsuc}
use android_device_samsung_a.Sensors.Reader.{neg}
use android_device_samsung_a.Audio.Config.{hw_sample_rate}
use android_device_samsung_a.Audio.Capture.{Capture, ReadEnd, waiting, returned, read_frames}

-- One call of an effect's `process`: from the frames that it may consume and the room that it may fill, the
-- number that it consumed and the frames that it wrote.
abbrev pub Effect : Type 0 → Type 0
Effect F = ℕ → ℕ → ℕ × List F

-- One call of pushEchoReference: the frames in the driver that pcm_get_htimestamp counts, if it succeeds;
-- what the echo reference gives of the frames it is asked for, or an error; and for each effect its
-- process_reverse, if it has one, from the number of frames in `refBuf` to the number it leaves there.
pub record EchoCalls (F : Type 0) : Type 0 where
  pub kernel_frames : Option ℕ
  pub read_reference : ℕ → Option (List F)
  pub reverses : List (Option (ℕ → ℕ))

-- A round of the loop: the effects of mPreprocessors in their order, and the calls on the echo reference.
pub record ProcessRound (F : Type 0) : Type 0 where
  pub effects : List (Effect F)
  pub echo_calls : EchoCalls F

-- mRefBuf with its mRefFramesIn frames, and mRefBufSize; `delays` is what the effects were told, in
-- microseconds, the latest first.
pub record EchoBuffer (F : Type 0) : Type 0 where
  pub ref_buf : List F
  pub ref_buf_size : ℕ
  pub delays : List ℤ

-- mProcBuf with its mProcFramesIn frames, and mProcBufSize. `echo` is there where mEchoReference is.
pub record Processing (F : Type 0) : Type 0 where
  pub capture : Capture F
  pub proc_buf : List F
  pub proc_buf_size : ℕ
  pub echo : Option (EchoBuffer F)

-- `inBuf.frameCount`, `outBuf.frameCount` and what stands in `outBuf`.
pub record AudioBuffers (F : Type 0) : Type 0 where
  pub in_count : ℕ
  pub out_count : ℕ
  pub out : List F

-- The int32_t of the same bits.
abbrev pub to_int32 : ℕ → ℤ
to_int32 n = let m = n % 2 ^ 32 in if ltb m (2 ^ 31) then pos m else neg (2 ^ 32 - m)

-- `x / 1000`, which rounds to 0.
abbrev pub thousandth : ℤ → ℤ
thousandth (pos n) = pos (n / 1000)
thousandth (negsuc n) = neg (suc n / 1000)

-- The delay in nanoseconds, a `long` of 32 bits.
unfoldable pub get_capture_delay : Option ℕ → ℕ → ℤ
get_capture_delay none buffered = pos 0
get_capture_delay (some kernel) buffered =
    to_int32 (buffered * 1000000000 / hw_sample_rate + kernel * 1000000000 / hw_sample_rate)

-- The loop over the effects: `refBuf.frameCount`, and the delays.
unfoldable pub reverse_all : List (Option (ℕ → ℕ)) → ℤ → ℕ → List ℤ → ℕ × List ℤ
reverse_all [] delay n ds = (n, ds)
reverse_all (none ∷ rs) delay n ds = reverse_all rs delay n ds
reverse_all (some r ∷ rs) delay n ds = reverse_all rs delay (r n) (delay ∷ ds)

-- What processFrames returns: its result, the frames it wrote, and what the effects consumed.
pub record Processed (F : Type 0) : Type 0 where
  pub result : ℤ
  pub written : List F
  pub consumed : List F
  pub stream : Processing F

module _ {F : Type 0} where
  -- The part of updateEchoReference that reads, and what it leaves where the reading fails.
  abbrev pub read_more : Option (List F) → EchoBuffer F → EchoBuffer F
  read_more none e = e
  read_more (some fs) e = record e { ref_buf = e.ref_buf ++ fs }

  -- The delay in nanoseconds; `buffered` are the frames in the two buffers of the stream.
  unfoldable pub update_echo_reference : EchoCalls F → ℕ → ℕ → EchoBuffer F → ℤ × EchoBuffer F
  unfolding get_capture_delay
  update_echo_reference calls buffered frames e =
      if ltb (length e.ref_buf) frames
      then (
        get_capture_delay calls.kernel_frames buffered,
        read_more (calls.read_reference (frames - length e.ref_buf))
            (record e { ref_buf_size = max e.ref_buf_size frames }),
      )
      else (pos 0, e)

  -- The loop over the effects, which share the two buffers.
  unfoldable pub run_effects : List (Effect F) → AudioBuffers F → AudioBuffers F
  run_effects [] b = b
  run_effects (e ∷ es) b =
      let (consumed, written) = e b.in_count b.out_count in
      run_effects es (record { in_count = consumed; out_count = length written; out = written })

  abbrev pub filled : Processing F → ReadEnd F → Option (ℤ × Processing F)
  filled p waiting = none
  filled p (returned (negsuc n) fs c) = some (negsuc n, record p { capture = c })
  filled p (returned (pos n) fs c) =
      some (pos 0, record p { capture = c; proc_buf = p.proc_buf ++ fs })

  -- The reloading of mProcBuf: `none` where readFrames waits, and its error. The frames that it copied before
  -- an error stand behind mProcFramesIn and count no more.
  unfoldable pub reload : Bool → ℕ → Processing F → Option (ℤ × Processing F)
  reload pcm frames p =
      if ltb (length p.proc_buf) frames
      then filled (record p { proc_buf_size = max p.proc_buf_size frames })
          (read_frames pcm (frames - length p.proc_buf) p.capture)
      else some (pos 0, p)

  abbrev pub behind_round : List F → List F → Option (Processed F) → Option (Processed F)
  behind_round out taken none = none
  behind_round out taken (some x) =
      some (record x { written = out ++ x.written; consumed = taken ++ x.consumed })

  abbrev pub finished : ℤ → Processing F → Option (Processed F)
  finished status p = some (record { result = status; written = []; consumed = []; stream = p })

  -- What a buffer holds behind `memcpy(buf, buf + k, …)` of all its frames from the k-th on: those frames,
  -- where the two ranges have no frame in common or are the same. Otherwise the language does not say, and
  -- `overlapped` does.
  unfoldable pub moved : (ℕ → List F → List F) → ℕ → List F → List F
  moved overlapped k xs =
      if ltb 0 k && ltb k (length xs - k) then take (length xs - k) (overlapped k xs) else drop k xs

  module _ (overlapped : ℕ → List F → List F) where
    unfoldable pub push_echo_reference : EchoCalls F → ℕ → ℕ → EchoBuffer F → EchoBuffer F
    unfolding update_echo_reference reverse_all moved
    push_echo_reference calls buffered frames e =
        let (delay_ns, e1) = update_echo_reference calls buffered frames e in
        let (n, ds) =
          reverse_all calls.reverses (thousandth delay_ns) (min frames (length e1.ref_buf))
            e1.delays in
        record e1 { ref_buf = moved overlapped n e1.ref_buf; delays = ds }

    abbrev pub push_if : EchoCalls F → ℕ → ℕ → Option (EchoBuffer F) → Option (EchoBuffer F)
    push_if calls buffered frames none = none
    push_if calls buffered frames (some e) = some (push_echo_reference calls buffered frames e)

    -- The rest of a round: the effects on the frames there are, with `room` for those they write.
    unfoldable pub process_round : ProcessRound F → ℕ → Processing F → AudioBuffers F × Processing F
    unfolding run_effects push_echo_reference moved
    process_round r room p =
        let n = length p.proc_buf in
        let b = run_effects r.effects (record { in_count = n; out_count = room; out = [] }) in
        (
          b,
          record p {
            proc_buf = moved overlapped b.in_count p.proc_buf;
            echo = push_if r.echo_calls (p.capture.input_frames_in + n) n p.echo;
          },
        )

    -- A round behind the reloading, and the rounds behind it.
    unfoldable pub on_reloaded :
        (ℕ → Processing F → Option (Processed F))
        → ProcessRound F
        → ℕ
        → ℕ
        → Option (ℤ × Processing F)
        → Option (Processed F)
    unfolding process_round
    on_reloaded next_rounds r frames w none = none
    on_reloaded next_rounds r frames w (some (negsuc n, p)) = finished (negsuc n) p
    on_reloaded next_rounds r frames w (some (pos n, p)) =
        let (b, q) = process_round r (frames - w) p in
        behind_round b.out (take b.in_count p.proc_buf) (next_rounds (w + b.out_count) q)

    -- The loop, with `w` frames in the caller's buffer: `none` where it waits for the driver, or wants
    -- a further round.
    unfoldable pub process_rounds :
        Bool → List (ProcessRound F) → ℕ → ℕ → Processing F → Option (Processed F)
    unfolding reload on_reloaded
    process_rounds pcm [] frames w p = if leb frames w then finished (pos w) p else none
    process_rounds pcm (r ∷ rs) frames w p =
        if leb frames w
        then finished (pos w) p
        else on_reloaded (λ v q. process_rounds pcm rs frames v q) r frames w (reload pcm frames p)

    unfoldable pub process_frames :
        Bool → List (ProcessRound F) → ℕ → Processing F → Option (Processed F)
    unfolding process_rounds
    process_frames pcm rounds frames p = process_rounds pcm rounds frames 0 p
