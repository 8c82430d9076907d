-- ===== src/Audio/Modem/Froyo.antt =====
-- The call commands of libaudio/AudioHardware.cpp for the RIL client of Froyo (USES_FROYO_RILCLIENT), which
-- has no SetCallVolume, SetCallAudioPath and SetCallClockSync.
use android_device_samsung_a.Prelude.{ℕ, ◌%◌, Option, List, [], ◌∷◌, ◌==◌, if◌then◌else◌}
use android_device_samsung_a.Ril.Parcel.{ParcelApi}
use android_device_samsung_a.Ril.Client.{Client}
use android_device_samsung_a.Ril.Write.{WriteOutcome}
use android_device_samsung_a.Ril.Oem.{Reply, invoke_oem_request_hook_raw}

-- AudioHardware::convertSoundType, on the values of the enum
unfoldable pub froyo_sound_type : ℕ → ℕ
froyo_sound_type type =
    if type == 0
    then 0x01
    else if type == 1
    then 0x11
    else if type == 2
    then 0x31
    else if type == 3
    then 0x41
    else 0x01

-- AudioHardware::convertAudioPath
unfoldable pub froyo_audio_path : ℕ → ℕ
froyo_audio_path path =
    if path == 0
    then 0x01
    else if path == 2
    then 0x06
    else if path == 3
    then 0x04
    else if path == 6
    then 0x08
    else if path == 5
    then 0x07
    else if path == 1
    then 0x02
    else 0x01

module _ (api : ParcelApi) where
  unfoldable pub froyo_set_call_volume : Option Client → ℕ → ℕ → List WriteOutcome → Reply
  unfolding froyo_sound_type
  froyo_set_call_volume client type vol os =
      invoke_oem_request_hook_raw api client
        (0x08 ∷ 0x03 ∷ 0x00 ∷ 0x06 ∷ froyo_sound_type type ∷ (vol % 256) ∷ []) os

  unfoldable pub froyo_set_call_audio_path : Option Client → ℕ → List WriteOutcome → Reply
  unfolding froyo_audio_path
  froyo_set_call_audio_path client path os =
      invoke_oem_request_hook_raw api client
        (0x08 ∷ 0x05 ∷ 0x00 ∷ 0x05 ∷ froyo_audio_path path ∷ []) os

  unfoldable pub froyo_set_call_clock_sync : Option Client → ℕ → List WriteOutcome → Reply
  froyo_set_call_clock_sync client condition os =
      invoke_oem_request_hook_raw api client (0x08 ∷ 0x0A ∷ 0x00 ∷ 0x05 ∷ (condition % 256) ∷ []) os
