-- ===== src/Audio/Reach.antt =====
-- The runs of the audio HAL: the interface of libaudio/AudioHardware.cpp as a step relation.
use android_device_samsung_a.Prelude.{ℕ, ◌+◌, subst, ◌≤◌, ◌≡◌, Bool, Option, some, arith}
use android_device_samsung_a.Prelude.Int.{ℤ}
use android_device_samsung_a.Audio.Config.{Request}
use android_device_samsung_a.Audio.Routes.{TtyMode}
use android_device_samsung_a.Audio.State.{World, Audio, is_set}
use android_device_samsung_a.Audio.Mode.{set_mode, set_mic_mute, is_active}
use android_device_samsung_a.Audio.Mode.Invariant.{set_mode-IsSound, set_mic_mute-IsSound}
use android_device_samsung_a.Audio.Transfer.{write, read}
use android_device_samsung_a.Audio.Transfer.Write.{write-IsSound}
use android_device_samsung_a.Audio.Transfer.Read.{IsExclusive, read-IsSound}
use android_device_samsung_a.Audio.Client.{
  open_output_stream, out_standby, close_output_stream, open_input_stream, close_input_stream,
  in_standby, new_audio,
}
use android_device_samsung_a.Audio.Client.Settings.{
  set_voice_volume, set_parameters, out_set_parameters, in_set_parameters, add_audio_effect,
  remove_audio_effect,
}
use android_device_samsung_a.Audio.Client.Invariant.{
  in_standby-IsSound, set_voice_volume-IsSound, set_parameters-IsSound, out_set_parameters-IsSound,
  out_standby-IsSound,
}
use android_device_samsung_a.Audio.Client.Inputs.{
  in_set_parameters-IsSound, add_audio_effect-IsSound, remove_audio_effect-IsSound,
}
use android_device_samsung_a.Audio.Client.Streams.{
  open_output_stream-IsSound, close_output_stream-IsSound, open_input_stream-IsSound,
  close_input_stream-IsSound, new_audio-IsSound,
}
use android_device_samsung_a.Audio.Sound.{to_nat}
use android_device_samsung_a.Audio.Sound.Inputs.{actives, mixer_users-actives}
use android_device_samsung_a.Audio.Sound.Standby.{IsSound}

-- A call of the interface that returns.
pub data Step (w : World) (a a' : Audio) : Type 0 where
  mode : (m : ℕ) → (set_mode w m a).1 ≡ some a' → Step w a a'
  mic_mute : (state : Bool) → set_mic_mute w state a ≡ some a' → Step w a a'
  voice_volume : (volume : ℕ) → set_voice_volume w volume a ≡ a' → Step w a a'
  parameters :
      (nrec : Option Bool) (tty : Option (Option TtyMode))
      → (set_parameters w nrec tty a).1 ≡ a'
      → Step w a a'
  output_opens :
      (id devices : ℕ) (r : Request) → (open_output_stream id devices r a).1 ≡ a' → Step w a a'
  output_closes : (id : ℕ) → close_output_stream id a ≡ some a' → Step w a a'
  output_routes :
      (routing : Option ℕ) (rest : Bool)
      → (out_set_parameters w routing rest a).1 ≡ a'
      → Step w a a'
  output_rests : out_standby a ≡ a' → Step w a a'
  writes : (ok : Bool) → write w a ≡ some (ok, a') → Step w a a'
  input_opens :
      (input_device : Bool) (resampler : ℤ) (id devices : ℕ) (r : Request) (status : ℤ)
      → open_input_stream input_device resampler id devices r a ≡ some (status, a')
      → Step w a a'
  input_closes : (id : ℕ) → close_input_stream id a ≡ some a' → Step w a a'
  input_routes :
      (id : ℕ) (source routing : Option ℕ)
      → in_set_parameters w id source routing a ≡ some a'
      → Step w a a'
  input_rests : (id : ℕ) → in_standby id a ≡ some a' → Step w a a'
  reads : (id : ℕ) (ok : Bool) → read w id a ≡ some (ok, a') → Step w a a'
  effect_comes :
      (id effect : ℕ) (aec : Bool) → add_audio_effect w id effect aec a ≡ some a' → Step w a a'
  effect_goes :
      (id effect : ℕ) (aec : Bool) → remove_audio_effect w id effect aec a ≡ some a' → Step w a a'

-- The states behind the constructor.
pub data Reach (w : World) (one : ℕ) : Audio → Type 0 where
  start : Reach w one (new_audio w one)
  after : {a a' : Audio} → Reach w one a → Step w a a' → Reach w one a'

Step-IsSound : (w : World) (a a' : Audio) → IsExclusive w → Step w a a' → IsSound a → IsSound a'
Step-IsSound w a a' ex (mode m e) so = set_mode-IsSound w m a a' e so
Step-IsSound w a a' ex (mic_mute state e) so = set_mic_mute-IsSound w state a a' e so
Step-IsSound w a a' ex (voice_volume v e) so = subst IsSound e (set_voice_volume-IsSound w v a so)
Step-IsSound w a a' ex (parameters nrec tty e) so =
    subst IsSound e (set_parameters-IsSound w nrec tty a so)
Step-IsSound w a a' ex (output_opens id devices r e) so =
    subst IsSound e (open_output_stream-IsSound id devices r a so)
Step-IsSound w a a' ex (output_closes id e) so = close_output_stream-IsSound id a a' e so
Step-IsSound w a a' ex (output_routes routing rest e) so =
    subst IsSound e (out_set_parameters-IsSound w routing rest a so)
Step-IsSound w a a' ex (output_rests e) so = subst IsSound e (out_standby-IsSound a so)
Step-IsSound w a a' ex (writes ok e) so = write-IsSound w a a' ok e so
Step-IsSound w a a' ex (input_opens i z id devices r st e) so =
    open_input_stream-IsSound i z id devices r a a' st e so
Step-IsSound w a a' ex (input_closes id e) so = close_input_stream-IsSound id a a' e so
Step-IsSound w a a' ex (input_routes id source routing e) so =
    in_set_parameters-IsSound w id source routing a a' e so
Step-IsSound w a a' ex (input_rests id e) so = in_standby-IsSound id a a' e so
Step-IsSound w a a' ex (reads id ok e) so = read-IsSound w id a a' ok ex e so
Step-IsSound w a a' ex (effect_comes id effect aec e) so =
    add_audio_effect-IsSound w id effect aec a a' e so
Step-IsSound w a a' ex (effect_goes id effect aec e) so =
    remove_audio_effect-IsSound w id effect aec a a' e so

-- Every state that calls of the interface can reach from the constructor satisfies the invariant, whatever
-- the drivers, the modem and the base class answer, if the capture device opens for one stream at a
-- time: the counts of the playback device and of the mixer are those of the streams that
-- hold them, with one more at most in a call; a stream is active exactly if it has its device; one input at
-- most is active; and the wake lock is held exactly while the output is active.
pub Reach-IsSound : (w : World) (one : ℕ) (a : Audio) → IsExclusive w → Reach w one a → IsSound a
Reach-IsSound w one c ex start = new_audio-IsSound w one
Reach-IsSound w one c ex (after {a} r s) = Step-IsSound w a c ex s (Reach-IsSound w one a ex r)

-- In every state that can be reached, if the capture device opens for one stream at a time: the playback
-- device is counted at most twice and the mixer at most three times; while the output is active the
-- device is open; the device is open only in a call or while the output is active, the mixer only then or
-- while an input is active; and the wake lock is held exactly while the output is active.
pub Reach-closed :
    (w : World) (one : ℕ) (a : Audio)
    → IsExclusive w
    → Reach w one a
    → (a.hw.pcm_open_cnt ≤ 2)
      × (a.hw.mixer_open_cnt ≤ 3)
      × (to_nat (is_active a.output) ≤ to_nat (is_set a.hw.pcm))
      × (to_nat (is_set a.hw.pcm) ≤ to_nat a.hw.in_call_audio_mode + to_nat (is_active a.output))
      × (to_nat (is_set a.hw.mixer)
          ≤ to_nat a.hw.in_call_audio_mode + to_nat (is_active a.output) + actives a.inputs)
      × (a.hw.wake_lock ≡ is_active a.output)
Reach-closed w one a ex r =
    let so = Reach-IsSound w one a ex r in ground (arith, so, mixer_users-actives a.inputs so.2)
