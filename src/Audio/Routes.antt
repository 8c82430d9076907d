-- ===== src/Audio/Routes.antt =====
-- Where libaudio/AudioHardware.cpp routes a device: the values of the mixer's controls, and the sound types
-- and audio paths of the modem. Devices, modes and sources are the numbers of AudioSystem.
pub mod Laws
use android_device_samsung_a.Prelude.{
  ℕ, ◌+◌, Bool, true, false, ◌||◌, Option, none, some, ◌==◌, if◌then◌else◌,
}

abbrev pub out_earpiece : ℕ
out_earpiece = 0x1

abbrev pub out_speaker : ℕ
out_speaker = 0x2

abbrev pub out_wired_headset : ℕ
out_wired_headset = 0x4

abbrev pub out_wired_headphone : ℕ
out_wired_headphone = 0x8

abbrev pub out_bluetooth_sco : ℕ
out_bluetooth_sco = 0x10

abbrev pub out_bluetooth_sco_headset : ℕ
out_bluetooth_sco_headset = 0x20

abbrev pub out_bluetooth_sco_carkit : ℕ
out_bluetooth_sco_carkit = 0x40

abbrev pub out_anlg_dock_headset : ℕ
out_anlg_dock_headset = 0x800

-- Those of AudioSystem 2.0, without AUDIO_DEVICE_BIT_IN.
abbrev pub in_builtin_mic : ℕ
in_builtin_mic = 0x40000

abbrev pub in_bluetooth_sco_headset : ℕ
in_bluetooth_sco_headset = 0x80000

abbrev pub in_wired_headset : ℕ
in_wired_headset = 0x100000

abbrev pub mode_normal : ℕ
mode_normal = 0

abbrev pub mode_ringtone : ℕ
mode_ringtone = 1

abbrev pub mode_in_call : ℕ
mode_in_call = 2

abbrev pub is_bluetooth_sco : ℕ → Bool
is_bluetooth_sco device =
    (device == out_bluetooth_sco)
    || (device == out_bluetooth_sco_headset)
    || (device == out_bluetooth_sco_carkit)

abbrev pub is_speaker_like : ℕ → Bool
is_speaker_like device = (device == out_speaker) || (device == out_anlg_dock_headset)

abbrev pub is_wired : ℕ → Bool
is_wired device = (device == out_wired_headset) || (device == out_wired_headphone)

-- The speaker with a headphone, a headset or a dock: the masks joined by `|`.
abbrev pub is_speaker_with : ℕ → Bool
is_speaker_with device =
    (device == out_speaker + out_wired_headphone)
    || (device == out_speaker + out_wired_headset)
    || (device == out_speaker + out_anlg_dock_headset)

-- The names that the driver gives the values of its controls.
pub data Route : Type 0 where
  rcv spk ring_spk extra_dock_speaker hp_no_mic ring_no_mic hp ring_hp spk_hp ring_spk_hp bt off :
      Route
  tty_vco tty_hco tty_full : Route
  mic_off main_mic hands_free_mic bt_sco_mic : Route
  camcorder voice_recognition voice_communication : Route

-- `tty_modes`
pub data TtyMode : Type 0 where
  tty_mode_off tty_mode_vco tty_mode_hco tty_mode_full : TtyMode

abbrev in_ringtone : ℕ → Route → Route → Route
in_ringtone mode ringing other = if mode == mode_ringtone then ringing else other

unfoldable pub get_output_route_from_device : ℕ → ℕ → Route
get_output_route_from_device mode device =
    if device == out_earpiece
    then rcv
    else if device == out_anlg_dock_headset
    then in_ringtone mode ring_spk extra_dock_speaker
    else if device == out_speaker
    then in_ringtone mode ring_spk spk
    else if device == out_wired_headphone
    then in_ringtone mode ring_no_mic hp_no_mic
    else if device == out_wired_headset
    then in_ringtone mode ring_hp hp
    else if is_speaker_with device
    then in_ringtone mode ring_spk_hp spk_hp
    else if is_bluetooth_sco device
    then bt
    else off

unfoldable pub get_voice_route_from_device : TtyMode → ℕ → Route
get_voice_route_from_device tty_mode device =
    if device == out_earpiece
    then rcv
    else if is_speaker_like device
    then spk
    else if is_wired device
    then elim tty_mode [
      | tty_mode_vco ↦ tty_vco
      | tty_mode_hco ↦ tty_hco
      | tty_mode_full ↦ tty_full
      | tty_mode_off ↦ if device == out_wired_headphone then hp_no_mic else hp
    ]
    else if is_bluetooth_sco device
    then bt
    else off

unfoldable pub get_input_route_from_device : Bool → ℕ → Route
get_input_route_from_device mic_mute device =
    if mic_mute
    then mic_off
    else if device == in_builtin_mic
    then main_mic
    else if device == in_wired_headset
    then hands_free_mic
    else if device == in_bluetooth_sco_headset
    then bt_sco_mic
    else mic_off

-- The `switch` of setVoiceVolume_l, to the values of the enum SoundType.
unfoldable pub volume_sound_type : ℕ → ℕ
volume_sound_type device =
    if device == out_earpiece
    then 0
    else if is_speaker_like device
    then 1
    else if is_bluetooth_sco device
    then 3
    else if is_wired device
    then 2
    else 0

-- The `switch` of setIncallPath_l, to the values of the enum AudioPath.
unfoldable pub incall_audio_path : Bool → ℕ → ℕ
incall_audio_path bluetooth_nrec device =
    if device == out_earpiece
    then 0
    else if is_speaker_like device
    then 2
    else if is_bluetooth_sco device
    then (if bluetooth_nrec then 3 else 6)
    else if device == out_wired_headphone
    then 5
    else if device == out_wired_headset
    then 1
    else 0

-- The `switch` of setInputSource_l on the sources of audio.h; `none` is where it returns NO_INIT.
unfoldable pub input_source_name : ℕ → Option Route
input_source_name source =
    if (source == 0) || (source == 1) || (source == 5)
    then some camcorder
    else if source == 7
    then some voice_communication
    else if source == 6
    then some voice_recognition
    else none
