-- ===== src/Ril/Oem/Codes.antt =====
-- The checks and conversions of the command arguments in ril/libsecril-client/secril-client.cpp.
use android_device_samsung_a.Prelude.{ℕ, zero, suc, Bool, ◌&&◌, leb}

-- The enums start at 0: SOUND_TYPE_VOICE to SOUND_TYPE_BTVOICE.
unfoldable pub is_valid_sound_type : ℕ → Bool
is_valid_sound_type type = leb 0 type && leb type 3

-- The upper end is OEM_SND_AUDIO_PATH_BT_WB_NSEC_OFF, a code of the modem, and not
-- SOUND_AUDIO_PATH_BLUETOOTH_WB_NO_NR, which is 10.
unfoldable pub is_valid_audio_path : ℕ → Bool
is_valid_audio_path path = leb 0 path && leb path 0x0C

unfoldable pub is_valid_sound_clock_condition : ℕ → Bool
is_valid_sound_clock_condition condition = leb 0 condition && leb condition 1

unfoldable pub is_valid_call_rec_condition : ℕ → Bool
is_valid_call_rec_condition condition = leb 0 condition && leb condition 1

unfoldable pub is_valid_mute_condition : ℕ → Bool
is_valid_mute_condition condition = leb 0 condition && leb condition 5

unfoldable pub convert_sound_type : ℕ → ℕ
convert_sound_type zero = 0x01
convert_sound_type (suc zero) = 0x11
convert_sound_type (suc (suc zero)) = 0x31
convert_sound_type (suc (suc (suc zero))) = 0x41
convert_sound_type _ = 0x01

-- The cases in the order of the enum `AudioPath`.
unfoldable pub convert_audio_path : ℕ → ℕ
convert_audio_path path = elim path [
  | zero ↦ 0x01
  | suc zero ↦ 0x02
  | suc (suc zero) ↦ 0x06
  | suc (suc (suc zero)) ↦ 0x04
  | suc (suc (suc (suc zero))) ↦ 0x05
  | suc (suc (suc (suc (suc zero)))) ↦ 0x07
  | suc (suc (suc (suc (suc (suc zero))))) ↦ 0x08
  | suc (suc (suc (suc (suc (suc (suc zero)))))) ↦ 0x09
  | suc (suc (suc (suc (suc (suc (suc (suc zero))))))) ↦ 0x0A
  | suc (suc (suc (suc (suc (suc (suc (suc (suc zero)))))))) ↦ 0x0B
  | suc (suc (suc (suc (suc (suc (suc (suc (suc (suc zero))))))))) ↦ 0x0C
  | _ ↦ 0x01
]
