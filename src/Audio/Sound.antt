-- ===== src/Audio/Sound.antt =====
-- The invariant of the audio HAL: the counts of the playback device and of the mixer are those of their
-- users. And that the steps of libaudio/AudioHardware.cpp on one stream keep it.
pub mod Streams
pub mod Inputs
pub mod Standby
pub mod Fields
pub mod Beside
pub mod Modem
use android_device_samsung_a.Prelude.{
  ℕ, zero, suc, ◌+◌, ◌≤◌, ◌≡◌, refl, Bool, true, false, not, Option, none, some, List, [], ◌∷◌,
  ◌++◌, ltb, ◌==◌, if◌then◌else◌, arith,
}
use android_device_samsung_a.Audio.State.{World, Hw, OutStream, InStream, Audio, is_set}
use android_device_samsung_a.Audio.Card.{
  open_pcm_out_l, close_pcm_out_l, open_mixer_l, close_mixer_l,
}

abbrev pub to_nat : Bool → ℕ
to_nat true = 1
to_nat false = 0

abbrev pub holds : Option ℕ → ℕ
holds o = to_nat (is_set o)

-- How far a count may be above and below the number of users, with the flag mInCallAudioMode.
pub record Slack : Type 0 where
  pub in_call : Bool
  pub over : ℕ
  pub under : ℕ

-- The device has `p` users and the mixer `q`. What is counted above 0 is open.
abbrev pub IsCounted : Slack → ℕ → ℕ → Hw → Type 0
IsCounted k p q h =
    (p ≤ h.pcm_open_cnt + k.under)
    × (h.pcm_open_cnt ≤ p + k.over)
    × (q ≤ h.mixer_open_cnt + k.under)
    × (h.mixer_open_cnt ≤ q + k.over)
    × (is_set h.pcm ≡ ltb 0 h.pcm_open_cnt)
    × (is_set h.mixer ≡ ltb 0 h.mixer_open_cnt)
    × (h.in_call_audio_mode ≡ k.in_call)

module _ (k : Slack) (p q : ℕ) (h : Hw) where
  pub open_pcm_out_l-IsCounted :
      (w : World)
      → IsCounted k p q h
      → IsCounted k (holds (open_pcm_out_l w h).0 + p) q (open_pcm_out_l w h).1
  unfolding open_pcm_out_l
  open_pcm_out_l-IsCounted w ok = ground arith

  pub close_pcm_out_l-IsCounted : IsCounted k (suc p) q h → IsCounted k p q (close_pcm_out_l h)
  unfolding close_pcm_out_l
  close_pcm_out_l-IsCounted ok = ground arith

  pub open_mixer_l-IsCounted :
      (w : World)
      → IsCounted k p q h
      → IsCounted k p (holds (open_mixer_l w h).0 + q) (open_mixer_l w h).1
  unfolding open_mixer_l
  open_mixer_l-IsCounted w ok = ground arith

  pub close_mixer_l-IsCounted : IsCounted k p (suc q) h → IsCounted k p q (close_mixer_l h)
  unfolding close_mixer_l
  close_mixer_l-IsCounted ok = ground arith
