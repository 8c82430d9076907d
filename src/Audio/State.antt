-- ===== src/Audio/State.antt =====
-- The members of `AudioHardware` and of its two kinds of streams (libaudio/AudioHardware.h), and what stands
-- around them: the drivers, the modem and the base class.
use android_device_samsung_a.Prelude.{
  ℕ, suc, Bool, true, false, Option, none, some, List, ◌∷◌, if◌then◌else◌,
}
use android_device_samsung_a.Prelude.Int.{ℤ}
use android_device_samsung_a.Audio.Routes.{Route, TtyMode}

-- Where a call outside may fail, `answer n` says whether the n-th such call succeeds: pcm_open with
-- pcm_is_ready, mixer_open, mixer_get_ctl_by_name, isConnected_RILD, Connect_RILD, create_echo_reference,
-- get_descriptor, pcm_write and the capture. `capture n busy` is the same for pcm_open of the capture device,
-- where `busy` is whether another stream has it open. `steps` is `(int)(volume * 5)` on the bits of a float, `base_status` what
-- AudioHardwareBase::setMode returns for the old and the new mode.
pub record World : Type 0 where
  pub answer : ℕ → Bool
  pub capture : ℕ → Bool → Bool
  pub steps : ℕ → ℤ
  pub base_status : ℕ → ℕ → ℤ

-- The controls of the mixer, by name.
pub data Control : Type 0 where
  playback_path capture_mic_path voice_call_path input_source : Control

-- What goes to the mixer and to the modem.
pub data Command : Type 0 where
  set_enum : Control → Route → Command
  call_volume : ℕ → ℤ → Command
  call_audio_path : ℕ → Command
  call_clock_start : Command
  ril_mic_mute : Bool → Command

-- `AudioHardware` without its streams. A handle is the number of the call that opened it; `calls` counts the
-- calls outside, `sent` the commands, the latest first, and `wake_lock` is whether "AudioOutLock" is held.
-- `voice_vol` are the bits of a float, `ril_client` whether the RIL library is loaded.
pub record Hw : Type 0 where
  pub mode : ℕ
  pub mic_mute : Bool
  pub pcm : Option ℕ
  pub pcm_open_cnt : ℕ
  pub mixer : Option ℕ
  pub mixer_open_cnt : ℕ
  pub in_call_audio_mode : Bool
  pub voice_vol : ℕ
  pub source : ℕ
  pub bluetooth_nrec : Bool
  pub tty_mode : TtyMode
  pub ril_client : Bool
  pub activated_cp : Bool
  pub echo_reference : Option ℕ
  pub calls : ℕ
  pub sent : List Command
  pub wake_lock : Bool

-- AudioStreamOutALSA, whose format, rate, channels and size are those of `out_set`. `route_ctl` is whether
-- mRouteCtl is set.
pub record OutStream : Type 0 where
  pub id : ℕ
  pub pcm : Option ℕ
  pub mixer : Option ℕ
  pub route_ctl : Bool
  pub standby : Bool
  pub devices : ℕ
  pub standby_cnt : ℕ
  pub echo_reference : Option ℕ

-- AudioStreamInALSA, less the buffers of the capture.
pub record InStream : Type 0 where
  pub id : ℕ
  pub pcm : Option ℕ
  pub mixer : Option ℕ
  pub route_ctl : Bool
  pub standby : Bool
  pub devices : ℕ
  pub standby_cnt : ℕ
  pub echo_reference : Option ℕ
  pub need_echo_reference : Bool
  pub preprocessors : List ℕ

-- `AudioHardware` with `mOutput` and `mInputs`.
pub record Audio : Type 0 where
  pub hw : Hw
  pub output : Option OutStream
  pub inputs : List InStream

abbrev pub is_set {ℓ} : {A : Type ℓ} → Option A → Bool
is_set none = false
is_set (some _) = true

abbrev pub called : Hw → Hw
called h = record h { calls = suc h.calls }

abbrev pub send : Command → Hw → Hw
send c h = record h { sent = c ∷ h.sent }

-- mixer_ctl_set_enum_by_string where mixer_get_ctl_by_name finds the control.
abbrev pub select : World → Control → Route → Hw → Hw
select w control route h =
    if w.answer h.calls then send (set_enum control route) (called h) else called h
