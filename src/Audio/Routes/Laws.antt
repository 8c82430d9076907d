-- ===== src/Audio/Routes/Laws.antt =====
-- How the routes of the music, of a call and of the modem agree.
use android_device_samsung_a.Prelude.{ℕ, ◌≡◌, ◌≢◌, Bool, true, false, arith}
use android_device_samsung_a.Ril.Oem.Codes.{is_valid_sound_type, is_valid_audio_path}
use android_device_samsung_a.Audio.Routes.{
  tty_mode_off, mode_ringtone, out_anlg_dock_headset, is_speaker_with, get_output_route_from_device,
  get_voice_route_from_device, volume_sound_type, incall_audio_path,
}

-- a call without a TTY
pub get_voice_route_from_device-output :
    (mode device : ℕ)
    → mode ≢ mode_ringtone
    → device ≢ out_anlg_dock_headset
    → is_speaker_with device ≡ false
    → get_voice_route_from_device tty_mode_off device ≡ get_output_route_from_device mode device
unfolding get_voice_route_from_device get_output_route_from_device
get_voice_route_from_device-output mode device h1 h2 h3 = ground arith

pub valid_codes :
    (nrec : Bool) (device : ℕ)
    → (is_valid_sound_type (volume_sound_type device) ≡ true)
      × (is_valid_audio_path (incall_audio_path nrec device) ≡ true)
unfolding is_valid_sound_type is_valid_audio_path volume_sound_type incall_audio_path
valid_codes nrec device = ground arith
