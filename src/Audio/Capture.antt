-- ===== src/Audio/Capture.antt =====
-- The capture of libaudio/AudioHardware.cpp: getNextBuffer, releaseBuffer and readFrames of
-- AudioStreamInALSA, for a stream at the rate of the hardware, which has no resampler.
pub mod Order
pub mod Frames
pub mod Process
pub mod Rounds
pub mod Effects
mod Tests
use android_device_samsung_a.Prelude.{
  ℕ, zero, suc, ◌-◌, min, Bool, true, false, Option, none, some, List, [], ◌∷◌, ◌++◌, ◌==◌, take,
  drop, length, if◌then◌else◌,
}
use android_device_samsung_a.Prelude.Int.{ℤ, pos, negsuc}
use android_device_samsung_a.Sensors.Reader.{neg}
use android_device_samsung_a.Audio.Config.{in_period_sz}

-- -ENODEV, the value of NO_INIT.
abbrev pub no_init : ℤ
no_init = neg 19

-- What pcm_read gives when it returns: -errno, or a period of frames.
pub data PcmRead (F : Type 0) : Type 0 where
  read_failed : ℕ → PcmRead F
  period : List F → PcmRead F

-- mInputBuf, mInputFramesIn and mReadStatus, with the returns of pcm_read to come.
pub record Capture (F : Type 0) : Type 0 where
  pub input_buf : List F
  pub input_frames_in : ℕ
  pub read_status : ℤ
  pub reads : List (PcmRead F)

-- `raw` of a buffer, NULL or frames; its frame_count is the number of them.
abbrev pub Buffer : Type 0 → Type 0
Buffer F = Option (List F)

-- What readFrames ends with: it waits in pcm_read, or it returns, with the frames it wrote.
pub data ReadEnd (F : Type 0) : Type 0 where
  waiting : ReadEnd F
  returned : ℤ → List F → Capture F → ReadEnd F

abbrev pub is_read_ok : ℤ → Bool
is_read_ok (pos zero) = true
is_read_ok _ = false

module _ {F : Type 0} where
  -- The frames from mInputFramesIn before the end of the period.
  unfoldable pub pending : Capture F → List F
  pending c = drop (in_period_sz - c.input_frames_in) c.input_buf

  abbrev pub hand_out : ℕ → Capture F → Buffer F × Capture F
  hand_out frame_count c = (some (take (min frame_count c.input_frames_in) (pending c)), c)

  -- Without the frames that pcm_read waits for, `none`.
  unfoldable pub get_next_buffer : Bool → ℕ → Capture F → Option (Buffer F × Capture F)
  unfolding pending
  get_next_buffer false frame_count c = some (none, record c { read_status = no_init })
  get_next_buffer true frame_count c = elim c.input_frames_in [
    | suc n ↦ some (hand_out frame_count c)
    | zero ↦ elim c.reads [
      | [] ↦ none
      | read_failed e ∷ rs ↦ some (none, record c { read_status = neg e; reads = rs })
      | period fs ∷ rs ↦ some (
          hand_out frame_count (record {
            input_buf = fs;
            input_frames_in = in_period_sz;
            read_status = pos 0;
            reads = rs;
          }))
    ]
  ]

  abbrev pub frame_count_of : Buffer F → ℕ
  frame_count_of none = 0
  frame_count_of (some fs) = length fs

  -- size_t arithmetic: no more is released than was handed out.
  unfoldable pub release_buffer : Buffer F → Capture F → Capture F
  release_buffer b c = record c { input_frames_in = c.input_frames_in - frame_count_of b }

  abbrev pub copied : Buffer F → List F
  copied none = []
  copied (some fs) = fs

  abbrev pub more : List F → ReadEnd F → ReadEnd F
  more fs waiting = waiting
  more fs (returned status gs c) = returned status (fs ++ gs) c

  -- memcpy and the next rounds, or the end with mReadStatus.
  unfoldable pub copied_or_end :
      (ℕ → Capture F → ReadEnd F) → Buffer F → Capture F → Bool → ReadEnd F
  copied_or_end next_rounds b c false = returned c.read_status [] c
  copied_or_end next_rounds b c true = more (copied b) (next_rounds (length (copied b)) c)

  -- Behind getNextBuffer.
  unfoldable pub went_on : (ℕ → Capture F → ReadEnd F) → Option (Buffer F × Capture F) → ReadEnd F
  unfolding copied_or_end
  went_on next_rounds none = waiting
  went_on next_rounds (some (b, c)) =
      let c' = release_buffer b c in copied_or_end next_rounds b c' (is_read_ok c'.read_status)

  -- The loop with `left` frames to come of `frames`. A round that goes on copies a frame or more, so `left`
  -- rounds are enough.
  unfoldable pub read_rounds : ℕ → Bool → ℕ → ℕ → Capture F → ReadEnd F
  unfolding get_next_buffer went_on
  read_rounds zero pcm frames left c = returned (pos frames) [] c
  read_rounds (suc fuel) pcm frames left c =
      if left == 0
      then returned (pos frames) [] c
      else went_on (λ n c'. read_rounds fuel pcm frames (left - n) c') (get_next_buffer pcm left c)

  unfoldable pub read_frames : Bool → ℕ → Capture F → ReadEnd F
  unfolding read_rounds
  read_frames pcm frames c = read_rounds frames pcm frames frames c
