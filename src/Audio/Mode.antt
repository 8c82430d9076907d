-- ===== src/Audio/Mode.antt =====
-- AudioHardware::setMode and setMicMute of libaudio/AudioHardware.cpp. An operation runs without another in
-- between: the loops that take the mutexes of the streams check again what they found before.
pub mod Invariant
pub mod Waits
use android_device_samsung_a.Prelude.{
  ℕ, zero, suc, Bool, true, false, not, ◌&&◌, Option, none, some, List, [], ◌∷◌, ◌++◌, ◌==◌,
  if◌then◌else◌,
}
use android_device_samsung_a.Prelude.Int.{ℤ, pos}
use android_device_samsung_a.Audio.Routes.{mode_normal, mode_in_call, rcv}
use android_device_samsung_a.Audio.State.{
  World, Hw, OutStream, InStream, Audio, playback_path, ril_mic_mute, is_set, send, select,
}
use android_device_samsung_a.Audio.Card.{
  open_pcm_out_l, close_pcm_out_l, open_mixer_l, close_mixer_l,
}
use android_device_samsung_a.Audio.Streams.{out_do_standby_l, in_do_standby_l}
use android_device_samsung_a.Audio.Modem.{
  if_connected, set_voice_volume_l, set_input_source_l, activate_cp,
}

-- An input with those before and behind it in mInputs.
pub record Split : Type 0 where
  pub before : List InStream
  pub this : InStream
  pub after : List InStream

abbrev pub behind : InStream → Option Split → Option Split
behind s none = none
behind s (some x) = some (record x { before = s ∷ x.before })

unfoldable pub split_first : (InStream → Bool) → List InStream → Option Split
split_first test [] = none
split_first test (s ∷ ss) =
    let rest = behind s (split_first test ss) in
    if test s then some (record { before = []; this = s; after = ss }) else rest

-- getActiveInput_l
unfoldable pub get_active_input_l : List InStream → Option Split
get_active_input_l = split_first λ s. not s.standby

abbrev pub put_back : Split → InStream → List InStream
put_back x s = x.before ++ s ∷ x.after

-- doStandby_l of the input that is active; `locked` is whether the caller has the mutex of the output.
unfoldable pub standby_active_input : Bool → Audio → Option Audio
standby_active_input locked a = elim (get_active_input_l a.inputs) [
  | none ↦ some a
  | some x ↦ elim (in_do_standby_l locked a.output x.this a.hw) [
    | none ↦ none
    | some (out, s, h) ↦ some (record { hw = h; output = out; inputs = put_back x s })
  ]
]

-- Whether the output is active, and so locked by setMode.
abbrev pub is_active : Option OutStream → Bool
is_active none = false
is_active (some s) = not s.standby

abbrev pub standby_output : Option OutStream → Hw → Option OutStream × Hw
standby_output none h = (none, h)
standby_output (some s) h =
    if s.standby then (some s, h) else (let (s', h') = out_do_standby_l (s, h) in (some s', h'))

-- `spOut->doStandby_l()` and `spIn->doStandby_l()` of the streams that are active.
unfoldable pub force_standby : Audio → Option Audio
force_standby a =
    let (out, h) = standby_output a.output a.hw in
    standby_active_input (is_active a.output) (record a { output = out; hw = h })

-- What setMode does of its own on entering a call.
unfoldable pub hold_call : World → Option OutStream → Hw → Hw
hold_call w out h =
    let (pcm, h1) = open_pcm_out_l w h in
    let (mixer, h2) = open_mixer_l w h1 in
    let (status, h3) = set_input_source_l w 0 h2 in
    record (set_voice_volume_l w h3.voice_vol out h3) { in_call_audio_mode = true }

unfoldable pub enter_call : World → Audio → Option Audio
enter_call w a = elim (force_standby a) [
  | none ↦ none
  | some a' ↦ some (record a' { hw = hold_call w a'.output a'.hw })
]

unfoldable pub release_call : World → Hw → Hw
release_call w h =
    let (status, h1) = set_input_source_l w h.source h in
    let h2 = if is_set h1.mixer then select w playback_path rcv h1 else h1 in
    close_pcm_out_l (close_mixer_l h2)

unfoldable pub leave_call : World → Audio → Option Audio
leave_call w a = elim (force_standby (record a { hw = release_call w a.hw })) [
  | none ↦ none
  | some a' ↦ some (record a' { hw = record a'.hw { in_call_audio_mode = false } })
]

abbrev pub on_hw : (Hw → Hw) → Option Audio → Option Audio
on_hw f none = none
on_hw f (some a) = some (record a { hw = f a.hw })

-- By mInCallAudioMode: on MODE_IN_CALL, and on MODE_NORMAL.
unfoldable pub to_call : World → Bool → Audio → Option Audio
to_call w true a = some a
to_call w false a = enter_call w a

unfoldable pub to_normal : World → Bool → Audio → Option Audio
to_normal w true a = leave_call w a
to_normal w false a = some a

-- Behind AudioHardwareBase::setMode, where the mode is set.
unfoldable pub change_mode : World → Audio → Option Audio
change_mode w a =
    let in_call = a.hw.in_call_audio_mode in
    if a.hw.mode == mode_in_call
    then to_call w in_call (record a { hw = activate_cp w a.hw })
    else if a.hw.mode == mode_normal
    then on_hw (λ h. record h { activated_cp = false }) (to_normal w in_call a)
    else some a

abbrev pub is_no_error : ℤ → Bool
is_no_error (pos zero) = true
is_no_error _ = false

-- The status, and the state; `none` where it waits for a mutex that it holds.
unfoldable pub set_mode : World → ℕ → Audio → ℤ × Option Audio
set_mode w mode a =
    let status = w.base_status a.hw.mode mode in
    (
      status,
      if is_no_error status
          then change_mode w (record a { hw = record a.hw { mode = mode } })
          else some a,
    )

unfoldable pub set_mic_mute : World → Bool → Audio → Option Audio
set_mic_mute w state a =
    let a' = record a { hw = record a.hw { mic_mute = state } } in
    let muted = if_connected w (send (ril_mic_mute state)) a'.hw in
    if (if state then a.hw.mic_mute else not a.hw.mic_mute)
    then some a
    else if a.hw.mode == mode_in_call
    then some (record a' { hw = muted })
    else standby_active_input false a'
