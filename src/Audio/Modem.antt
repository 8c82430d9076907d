-- ===== src/Audio/Modem.antt =====
-- What libaudio/AudioHardware.cpp asks of the modem and of the mixer in a call: connectRILDIfRequired,
-- setVoiceVolume_l, setIncallPath_l and setInputSource_l.
pub mod Froyo
pub mod Codes
use android_device_samsung_a.Prelude.{
  ℕ, suc, Bool, true, false, not, ◌&&◌, ◌||◌, Option, none, some, ◌==◌, if◌then◌else◌,
}
use android_device_samsung_a.Audio.Routes.{
  mode_in_call, out_earpiece, get_voice_route_from_device, volume_sound_type, incall_audio_path,
  input_source_name,
}
use android_device_samsung_a.Audio.State.{
  World, Hw, OutStream, voice_call_path, input_source, set_enum, call_volume, call_audio_path,
  call_clock_start, is_set, called, send, select,
}

-- Whether it returns OK.
unfoldable pub connect_rild_if_required : World → Hw → Bool × Hw
connect_rild_if_required w h =
    if h.ril_client
    then (if w.answer h.calls
        then (true, called h)
        else (w.answer (suc h.calls), called (called h)))
    else (false, h)

-- `if (mSecRilLibHandle && connectRILDIfRequired() == OK) …`
abbrev pub if_connected : World → (Hw → Hw) → Hw → Hw
if_connected w f h = let (ok, h') = connect_rild_if_required w h in if ok then f h' else h'

abbrev pub output_device : Option OutStream → ℕ
output_device none = out_earpiece
output_device (some s) = s.devices

unfoldable pub set_voice_volume_l : World → ℕ → Option OutStream → Hw → Hw
set_voice_volume_l w volume out h =
    let h' = record h { voice_vol = volume } in
    if h.mode == mode_in_call
    then if_connected w
        (send (call_volume (volume_sound_type (output_device out)) (w.steps volume))) h'
    else h'

unfoldable pub set_incall_path_l : World → ℕ → Hw → Hw
set_incall_path_l w device = if_connected w λ h.
    if h.mode == mode_in_call
    then (let h' = send (call_audio_path (incall_audio_path h.bluetooth_nrec device)) h in
        if is_set h.mixer
        then select w voice_call_path (get_voice_route_from_device h.tty_mode device) h'
        else h')
    else h

-- Whether it returns NO_ERROR.
unfoldable pub set_input_source_l : World → ℕ → Hw → Bool × Hw
set_input_source_l w source h =
    if source == h.source
    then (true, h)
    else if ((source == 0) || not (h.mode == mode_in_call)) && is_set h.mixer
    then (if w.answer h.calls
        then elim (input_source_name source) [
          | none ↦ (false, called h)
          | some name ↦
              (true, record (send (set_enum input_source name) (called h)) { source = source })
        ]
        else (false, called h))
    else (true, record h { source = source })

-- `if (!mActivatedCP && mSecRilLibHandle && connectRILDIfRequired() == OK)` of setMode.
unfoldable pub activate_cp : World → Hw → Hw
activate_cp w h =
    if not h.activated_cp
    then if_connected w (λ h'. record (send call_clock_start h') { activated_cp = true }) h
    else h
