-- ===== src/Audio/Capture/Tests.antt =====
-- Concrete captures through libaudio/AudioHardware.cpp.
use android_device_samsung_a.Prelude.{
  ℕ, refl, true, none, some, List, [], ◌∷◌, min, replicate, length-replicate, arith,
}
use android_device_samsung_a.Prelude.Int.{pos}
use android_device_samsung_a.Audio.Capture.{Capture, period, read_frames, read_failed}
use android_device_samsung_a.Audio.Capture.Process.{Effect, EchoCalls, ProcessRound, Processing}
use android_device_samsung_a.Audio.Capture.Frames.{IsDelivered, read_frames-IsDelivered}

abbrev a_period : ℕ → List ℕ
a_period n = replicate 1024 n

-- Two periods to come, then an error; 3 frames are left of the last.
abbrev recording : Capture ℕ
recording = record {
  input_buf = a_period 1;
  input_frames_in = 3;
  read_status = pos 0;
  reads = period (a_period 2) ∷ read_failed 5 ∷ [];
}

read_frames-IsDelivered_example : IsDelivered 100 100 recording (read_frames true 100 recording)
read_frames-IsDelivered_example = read_frames-IsDelivered 100 recording (
  length-replicate {A = ℕ} 1024 1,
  omega arith,
  refl,
  (length-replicate {A = ℕ} 1024 2, (omega arith, tt)),
  refl,
)

abbrev zero_echo : EchoCalls ℕ
zero_echo = record {
  kernel_frames = some 256;
  read_reference = λ n. some (replicate n 0);
  reverses = none ∷ [];
}

-- An effect that takes all frames and writes one.
abbrev gathering : Effect ℕ
gathering n room = (n, replicate (min 1 room) 0)

-- One that wants more frames.
abbrev hungry : Effect ℕ
hungry n room = (0, [])

abbrev gathering_round : ProcessRound ℕ
gathering_round = record { effects = gathering ∷ []; echo_calls = zero_echo }

abbrev hungry_round : ProcessRound ℕ
hungry_round = record { effects = hungry ∷ []; echo_calls = zero_echo }

abbrev listening : Processing ℕ
listening = record {
  capture = recording;
  proc_buf = [];
  proc_buf_size = 0;
  echo = some (record { ref_buf = []; ref_buf_size = 0; delays = [] });
}
