-- ===== src/Audio/Config/Accept.antt =====
-- What `set` accepts, against getInputBufferSize, and that a client that asks again with what it was told
-- is accepted.
use android_device_samsung_a.Prelude.{
  ℕ, zero, suc, ◌^◌, ◌<◌, ◌≡◌, ◌↔◌, true, some, if◌then◌else◌, arith,
}
use android_device_samsung_a.Prelude.Int.{ℤ, pos}
use android_device_samsung_a.Audio.Config.{
  Request, InSet, null_written, returned, pcm_16_bit, channel_in_mono, channel_count_of,
  is_in_channels, in_set, get_input_sample_rate, get_input_buffer_size, get_buffer_size,
  buffer_size_in,
}
use android_device_samsung_a.Audio.Config.Rates.{
  is_input_rate, get_input_sample_rate-fixed, get_input_sample_rate-twice,
}

abbrev pub asking : ℕ → ℕ → ℕ → Request
asking format channels rate = record {
  format = some format;
  channels = some channels;
  rate = some rate;
}

-- A client that asks again, `n` times at most, with the values it was given back.
abbrev pub asking_again : ℕ → ℤ → Request → InSet
asking_again zero resampler r = in_set resampler r
asking_again (suc n) resampler r = elim (in_set resampler r) [
  | null_written ↦ null_written
  | returned (pos zero) r' ↦ returned (pos zero) r'
  | returned _ r' ↦ asking_again n resampler r'
]

buffer_size_pos : (s n : ℕ) → is_input_rate s ≡ true → 0 < n → 0 < get_buffer_size s n
unfolding get_buffer_size buffer_size_in
buffer_size_pos s n hs hn = ground arith

-- For every format, every 32-bit rate and a mask of one or two channels: where create_resampler succeeds, the
-- input's `set` accepts them exactly if getInputBufferSize gives a size for the format, the rate and the
-- number of channels.
pub in_set_lem :
    (f c s : ℕ)
    → s < 2 ^ 32
    → is_in_channels c ≡ true
    → (in_set (pos 0) (asking f c s) ≡ returned (pos 0) (asking f c s))
      ↔ (0 < get_input_buffer_size s f (channel_count_of c))
unfolding in_set get_input_buffer_size
in_set_lem f c s hs hc =
    ground (arith, get_input_sample_rate-fixed s hs, buffer_size_pos s (channel_count_of c))

-- Whatever format, channels and rate a client asks for, if create_resampler succeeds, `set` accepts the third
-- answer at the latest with which it asks again: PCM of 16 bits, the channels asked for if they are mono or
-- stereo and else mono, and the rate that getInputSampleRate gives.
pub asking_again-accepted :
    (f c s : ℕ)
    → asking_again 3 (pos 0) (asking f c s)
      ≡ returned (pos 0) (
          asking pcm_16_bit
            (if is_in_channels c then c else channel_in_mono)
            (get_input_sample_rate s))
unfolding in_set
asking_again-accepted f c s = ground (arith, get_input_sample_rate-twice s)
