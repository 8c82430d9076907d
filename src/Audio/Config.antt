-- ===== src/Audio/Config.antt =====
-- What the streams of libaudio/AudioHardware.cpp accept: `inputConfigTable`, the buffer sizes, and the
-- two `set` methods.
pub mod Rates
pub mod Accept
use android_device_samsung_a.Prelude.{
  ℕ, zero, suc, ◌+◌, ◌-◌, ◌*◌, ◌/◌, ◌%◌, ◌^◌, Bool, true, false, ◌||◌, Option, none, some, List, [],
  ◌∷◌, ltb, leb, ◌==◌, if◌then◌else◌,
}
use android_device_samsung_a.Prelude.Int.{ℤ, pos}
use android_device_samsung_a.Sensors.Reader.{neg}

-- -EINVAL, the value of BAD_VALUE.
abbrev pub bad_value : ℤ
bad_value = neg 22

-- AudioSystem::PCM_16_BIT, CHANNEL_OUT_STEREO, CHANNEL_IN_MONO and CHANNEL_IN_STEREO.
abbrev pub pcm_16_bit : ℕ
pcm_16_bit = 1

abbrev pub channel_out_stereo : ℕ
channel_out_stereo = 3

abbrev pub channel_in_mono : ℕ
channel_in_mono = 16

abbrev pub channel_in_stereo : ℕ
channel_in_stereo = 12

-- AUDIO_HW_OUT_SAMPLERATE and AUDIO_HW_IN_SAMPLERATE
abbrev pub hw_sample_rate : ℕ
hw_sample_rate = 44100

-- AUDIO_HW_IN_PERIOD_SZ, in frames
abbrev pub in_period_sz : ℕ
in_period_sz = 1024

pub record InputConfig : Type 0 where
  pub rate : ℕ
  pub ratio : ℕ

abbrev pub input_config_table : List InputConfig
input_config_table =
    record { rate = 8000; ratio = 4 }
    ∷ record { rate = 11025; ratio = 4 }
    ∷ record { rate = 16000; ratio = 2 }
    ∷ record { rate = 22050; ratio = 2 }
    ∷ record { rate = 32000; ratio = 1 }
    ∷ record { rate = 44100; ratio = 1 }
    ∷ []

-- `abs(sampleRate - rate)`: the difference is a uint32_t, which `abs` takes as an int. Of INT_MIN, whose
-- negation overflows, the machine gives INT_MIN back.
unfoldable pub rate_delta : ℕ → ℕ → ℕ
rate_delta sample_rate rate =
    let d = (sample_rate + (2 ^ 32 - rate)) % 2 ^ 32 in if ltb d (2 ^ 31) then d else 2 ^ 32 - d

-- The loop of getInputSampleRate; `prev` is the rate before the first of the list.
unfoldable pub closest_rate : ℕ → ℕ → ℕ → List InputConfig → ℕ
unfolding rate_delta
closest_rate sample_rate prev prev_delta [] = prev
closest_rate sample_rate prev prev_delta (c ∷ cs) =
    let rest = closest_rate sample_rate c.rate (rate_delta sample_rate c.rate) cs in
    if ltb prev_delta (rate_delta sample_rate c.rate) then prev else rest

-- No delta is above 0xFFFFFFFF, so the loop does not end before the first entry, and 0 is not returned.
unfoldable pub get_input_sample_rate : ℕ → ℕ
unfolding closest_rate
get_input_sample_rate sample_rate = closest_rate sample_rate 0 (2 ^ 32 - 1) input_config_table

unfoldable pub buffer_size_in : List InputConfig → ℕ → ℕ → ℕ
buffer_size_in [] sample_rate channel_count = 0
buffer_size_in (c ∷ cs) sample_rate channel_count =
    let rest = buffer_size_in cs sample_rate channel_count in
    if sample_rate == c.rate then (in_period_sz * channel_count * 2) / c.ratio else rest

-- AudioStreamInALSA::getBufferSize
unfoldable pub get_buffer_size : ℕ → ℕ → ℕ
unfolding buffer_size_in
get_buffer_size = buffer_size_in input_config_table

-- AudioHardware::getInputBufferSize
unfoldable pub get_input_buffer_size : ℕ → ℕ → ℕ → ℕ
get_input_buffer_size sample_rate format channel_count =
    if format == pcm_16_bit
    then (if ltb channel_count 1 || ltb 2 channel_count
        then 0
        else if sample_rate == get_input_sample_rate sample_rate
        then get_buffer_size sample_rate channel_count
        else 0)
    else 0

-- What a client hands to openOutputStream and openInputStream: each is a pointer, or NULL.
pub record Request : Type 0 where
  pub format : Option ℕ
  pub channels : Option ℕ
  pub rate : Option ℕ

abbrev or_zero : Option ℕ → ℕ
or_zero none = 0
or_zero (some n) = n

abbrev fix_up : ℕ → ℕ → ℕ
fix_up value default = if value == 0 then default else value

-- A write through a pointer that may be NULL.
abbrev write_back : Option ℕ → ℕ → Option ℕ
write_back none v = none
write_back (some _) v = some v

abbrev answer_with : Request → ℕ → ℕ → ℕ → Request
answer_with r f c s = record {
  format = write_back r.format f;
  channels = write_back r.channels c;
  rate = write_back r.rate s;
}

-- AudioStreamOutALSA::set: the status, and what the pointers hold afterwards.
unfoldable pub out_set : Request → ℤ × Request
out_set r =
    let format = fix_up (or_zero r.format) pcm_16_bit in
    let channels = fix_up (or_zero r.channels) channel_out_stereo in
    let rate = fix_up (or_zero r.rate) hw_sample_rate in
    if format == pcm_16_bit
    then (if channels == channel_out_stereo
        then (if rate == hw_sample_rate
            then (pos 0, answer_with r format channels rate)
            else (bad_value, answer_with r pcm_16_bit channel_out_stereo hw_sample_rate))
        else (bad_value, answer_with r pcm_16_bit channel_out_stereo hw_sample_rate))
    else (bad_value, answer_with r pcm_16_bit channel_out_stereo hw_sample_rate)

-- AudioSystem::popCount of the two channel masks that `set` lets pass.
abbrev pub channel_count_of : ℕ → ℕ
channel_count_of mask = if mask == channel_in_stereo then 2 else 1

abbrev pub is_in_channels : ℕ → Bool
is_in_channels mask = (mask == channel_in_mono) || (mask == channel_in_stereo)

-- What AudioStreamInALSA::set ends with: a status, or a write through a NULL pointer.
pub data InSet : Type 0 where
  null_written : InSet
  returned : ℤ → Request → InSet

-- `resampler` is what create_resampler returns.
unfoldable pub in_set : ℤ → Request → InSet
in_set resampler r = elim r.format [
  | none ↦ null_written
  | some f ↦
      if f == pcm_16_bit
      then elim r.rate [
        | none ↦ returned bad_value r
        | some s ↦
            if s == get_input_sample_rate s
            then elim r.channels [
              | none ↦ null_written
              | some c ↦
                  if is_in_channels c
                  then (if s == hw_sample_rate then returned (pos 0) r else returned resampler r)
                  else returned bad_value (record r { channels = some channel_in_mono })
            ]
            else returned bad_value (record r { rate = some (get_input_sample_rate s) })
      ]
      else returned bad_value (record r { format = some pcm_16_bit })
]
