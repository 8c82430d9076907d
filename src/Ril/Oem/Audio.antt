-- ===== src/Ril/Oem/Audio.antt =====
-- The argument codes of SetCallVolume and SetCallAudioPath.
use android_device_samsung_a.Prelude.{
  ℕ, ◌<◌, ◌≤◌, ◌≡◌, refl, Bool, true, false, Option, some, List, ◌==◌, holds_below, holds_below_lem,
  arith, if◌then◌else◌, ◌⊎◌, inl, inr,
}
use android_device_samsung_a.Prelude.Int.{is_neg}
use android_device_samsung_a.Ril.Status.{inval}
use android_device_samsung_a.Ril.Parcel.{ParcelApi}
use android_device_samsung_a.Ril.Client.{Client}
use android_device_samsung_a.Ril.Write.{WriteOutcome}
use android_device_samsung_a.Ril.Oem.Codes.{
  is_valid_audio_path, convert_sound_type, convert_audio_path,
}
use android_device_samsung_a.Ril.Oem.{set_call_audio_path, refuse}

abbrev distinct : (ℕ → ℕ) → ℕ → Bool
distinct code n = holds_below n λ p. holds_below n λ q. if code p == code q then p == q else true

distinct_lem :
    (code : ℕ → ℕ) (n p q : ℕ) → distinct code n ≡ true → p < n → q < n → code p ≡ code q → p ≡ q
distinct_lem code n p q d lp lq e = ground (
  arith,
  holds_below_lem n (λ q. if code p == code q then p == q else true) q
      (holds_below_lem n (λ p. holds_below n λ q. if code p == code q then p == q else true) p d lp)
      lq,
)

-- ConvertSoundType gives the four sound types of the enum different codes.
pub convert_sound_type_injective :
    (p q : ℕ) → p < 4 → q < 4 → convert_sound_type p ≡ convert_sound_type q → p ≡ q
unfolding convert_sound_type holds_below
convert_sound_type_injective p q lp lq e = distinct_lem convert_sound_type 4 p q refl lp lq e

-- ConvertAudioPath gives the eleven audio paths of the enum different codes.
pub convert_audio_path_injective :
    (p q : ℕ) → p < 11 → q < 11 → convert_audio_path p ≡ convert_audio_path q → p ≡ q
unfolding convert_audio_path holds_below
convert_audio_path_injective p q lp lq e = distinct_lem convert_audio_path 11 p q refl lp lq e

-- SetCallAudioPath treats 11 and 12, which the enum lacks, as the handset, on every branch.
pub set_call_audio_path_unlisted :
    (api : ParcelApi) (handle : Option Client) (path : ℕ) (os : List WriteOutcome)
    → 10 < path
    → path ≤ 12
    → set_call_audio_path api handle path os ≡ set_call_audio_path api handle 0 os
unfolding set_call_audio_path is_valid_audio_path convert_audio_path
set_call_audio_path_unlisted api handle path os above below = by_value eleven_or_twelve
  where
    eleven_or_twelve : (path ≡ 11) ⊎ (path ≡ 12)
    eleven_or_twelve = omega arith

    by_value :
        (path ≡ 11) ⊎ (path ≡ 12)
        → set_call_audio_path api handle path os ≡ set_call_audio_path api handle 0 os
    by_value (inl e) = rw e refl
    by_value (inr e) = rw e refl

-- Of a client with a socket, SetCallAudioPath refuses the paths above 12, and sends nothing.
pub set_call_audio_path_refused :
    (api : ParcelApi) (c : Client) (path : ℕ) (os : List WriteOutcome)
    → is_neg c.sock ≡ false
    → 12 < path
    → set_call_audio_path api (some c) path os ≡ refuse inval (some c) os
unfolding set_call_audio_path is_valid_audio_path
set_call_audio_path_refused api c path os on above = ground arith
