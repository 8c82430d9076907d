-- ===== src/Audio/Modem/Codes.antt =====
-- What reaches the modem in a call: setVoiceVolume_l and setIncallPath_l of libaudio/AudioHardware.cpp
-- together with SetCallVolume and SetCallAudioPath of ril/libsecril-client/secril-client.cpp.
use android_device_samsung_a.Prelude.{
  ℕ, ◌%◌, ◌≡◌, Bool, true, false, ◌||◌, none, some, List, [], ◌∷◌, ◌==◌, if◌then◌else◌, arith,
}
use android_device_samsung_a.Prelude.Int.{is_neg}
use android_device_samsung_a.Ril.Parcel.{ParcelApi}
use android_device_samsung_a.Ril.Client.{Client}
use android_device_samsung_a.Ril.Write.{WriteOutcome}
use android_device_samsung_a.Ril.Oem.Codes.{
  is_valid_sound_type, is_valid_audio_path, convert_sound_type, convert_audio_path,
}
use android_device_samsung_a.Ril.Oem.{
  reply_of, request, checked, set_call_volume, set_call_audio_path,
}
use android_device_samsung_a.Audio.Routes.{volume_sound_type, incall_audio_path}
use android_device_samsung_a.Audio.Modem.Froyo.{froyo_sound_type, froyo_audio_path}

-- The modem's codes by the bits of the output devices: the wired ones, the speaker and the dock, and
-- Bluetooth.
abbrev pub type_code : ℕ → ℕ
type_code device =
    if (device == 0x4) || (device == 0x8)
    then 0x31
    else if (device == 0x2) || (device == 0x800)
    then 0x11
    else if (device == 0x10) || (device == 0x20) || (device == 0x40)
    then 0x41
    else 0x01

abbrev pub path_code : Bool → ℕ → ℕ
path_code nrec device =
    if device == 0x4
    then 0x02
    else if device == 0x8
    then 0x07
    else if (device == 0x2) || (device == 0x800)
    then 0x06
    else if (device == 0x10) || (device == 0x20) || (device == 0x40)
    then (if nrec then 0x04 else 0x08)
    else 0x01

codes :
    (nrec : Bool) (device : ℕ)
    → (convert_sound_type (volume_sound_type device) ≡ type_code device)
      × (convert_audio_path (incall_audio_path nrec device) ≡ path_code nrec device)
      × (is_valid_sound_type (volume_sound_type device) ≡ true)
      × (is_valid_audio_path (incall_audio_path nrec device) ≡ true)
unfolding convert_sound_type volume_sound_type convert_audio_path incall_audio_path
    is_valid_sound_type is_valid_audio_path
codes nrec device = ground arith

-- The converters for Froyo agree with those of the RIL client on what the audio HAL asks for.
pub froyo_codes :
    (nrec : Bool) (device : ℕ)
    → (froyo_sound_type (volume_sound_type device) ≡ type_code device)
      × (froyo_audio_path (incall_audio_path nrec device) ≡ path_code nrec device)
unfolding froyo_sound_type volume_sound_type froyo_audio_path incall_audio_path
froyo_codes nrec device = ground arith

-- For every output device and every volume, a RIL client with a socket takes the sound type and the
-- audio path that the audio HAL chooses, and sends the bytes that the modem has for the device.
pub set_call_audio_path-incall :
    (api : ParcelApi) (c : Client) (nrec : Bool) (device volume : ℕ) (os : List WriteOutcome)
    → is_neg c.sock ≡ false
    → (set_call_volume api (some c) (volume_sound_type device) volume os
        ≡ reply_of (
            request api 101 none
              (0x08 ∷ 0x03 ∷ 0x00 ∷ 0x06 ∷ type_code device ∷ (volume % 256) ∷ [])
              os
              c))
      × (set_call_audio_path api (some c) (incall_audio_path nrec device) os
          ≡ reply_of (
              request api 102 none
                (0x08 ∷ 0x05 ∷ 0x00 ∷ 0x06 ∷ path_code nrec device ∷ 0 ∷ [])
                os
                c))
unfolding set_call_volume set_call_audio_path checked
set_call_audio_path-incall api c nrec device volume os on = ground (arith, codes nrec device)
