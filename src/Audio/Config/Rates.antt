-- ===== src/Audio/Config/Rates.antt =====
-- getInputSampleRate against its description: the nearest rate of the table.
use android_device_samsung_a.Prelude.{
  ℕ, ◌+◌, ◌-◌, ◌*◌, ◌^◌, ◌≤◌, ◌<◌, ◌≡◌, ◌↔◌, Bool, true, ◌||◌, ◌==◌, ltb, if◌then◌else◌, arith,
}
use android_device_samsung_a.Audio.Config.{rate_delta, closest_rate, get_input_sample_rate}

-- Whether a rate is in the table.
abbrev pub is_input_rate : ℕ → Bool
is_input_rate r =
    (r == 8000) || (r == 11025) || (r == 16000) || (r == 22050) || (r == 32000) || (r == 44100)

-- The distance of two numbers.
abbrev pub distance : ℕ → ℕ → ℕ
distance a b = (a - b) + (b - a)

rate_delta-distance : (s r : ℕ) → s < 2 ^ 31 → r < 2 ^ 31 → rate_delta s r ≡ distance s r
unfolding rate_delta
rate_delta-distance s r hs hr = ground arith

-- The rate that getInputSampleRate gives for any number is one of the table.
pub get_input_sample_rate-listed : (s : ℕ) → is_input_rate (get_input_sample_rate s) ≡ true
unfolding get_input_sample_rate closest_rate rate_delta
get_input_sample_rate-listed s = ground arith

-- The same by the middles between the rates.
abbrev rate_by_middles : ℕ → ℕ
rate_by_middles s =
    if ltb s 9513
    then 8000
    else if ltb s 13513
    then 11025
    else if ltb s 19025
    then 16000
    else if ltb s 27025
    then 22050
    else if ltb s 38050
    then 32000
    else 44100

further : (s a b : ℕ) → a < b → ltb (distance s a) (distance s b) ≡ ltb (2 * s) (a + b)
further s a b h = ground arith

middles : (s : ℕ) → s < 2 ^ 31 → get_input_sample_rate s ≡ rate_by_middles s
unfolding get_input_sample_rate closest_rate
middles s hs =
    rw
      (
        rate_delta-distance s 8000 hs (omega arith),
        rate_delta-distance s 11025 hs (omega arith),
        rate_delta-distance s 16000 hs (omega arith),
        rate_delta-distance s 22050 hs (omega arith),
        rate_delta-distance s 32000 hs (omega arith),
        rate_delta-distance s 44100 hs (omega arith),
        further s 8000 11025 (omega arith),
        further s 11025 16000 (omega arith),
        further s 16000 22050 (omega arith),
        further s 22050 32000 (omega arith),
        further s 32000 44100 (omega arith),
      )
      (ground arith)

by_middles-nearest :
    (s r : ℕ) → is_input_rate r ≡ true → distance s (rate_by_middles s) ≤ distance s r
by_middles-nearest s r hr = ground arith

listed-below : (r : ℕ) → is_input_rate r ≡ true → r < 2 ^ 32
listed-below r h = ground arith

-- A rate is given back as it is exactly if it is in the table.
pub get_input_sample_rate-fixed :
    (s : ℕ) → s < 2 ^ 32 → (get_input_sample_rate s ≡ s) ↔ (is_input_rate s ≡ true)
unfolding get_input_sample_rate closest_rate rate_delta
get_input_sample_rate-fixed s hs = ground arith

-- For a rate below 2 ^ 31, getInputSampleRate gives a rate of the table, and no rate of the table is
-- nearer to it.
pub get_input_sample_rate-nearest :
    (s r : ℕ)
    → s < 2 ^ 31
    → is_input_rate r ≡ true
    → (is_input_rate (get_input_sample_rate s) ≡ true)
      × (distance s (get_input_sample_rate s) ≤ distance s r)
get_input_sample_rate-nearest s r hs hr =
    (get_input_sample_rate-listed s, rw (middles s hs) (by_middles-nearest s r hr))

pub get_input_sample_rate-twice :
    (s : ℕ) → get_input_sample_rate (get_input_sample_rate s) ≡ get_input_sample_rate s
get_input_sample_rate-twice s =
    let listed = get_input_sample_rate-listed s in
    (get_input_sample_rate-fixed (get_input_sample_rate s) (listed-below _ listed)).1 listed
