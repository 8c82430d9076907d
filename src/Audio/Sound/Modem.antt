-- ===== src/Audio/Sound/Modem.antt =====
-- The calls to the modem and the mixer of libaudio/AudioHardware.cpp leave the counts as they are.
use android_device_samsung_a.Prelude.{ℕ, Option, arith}
use android_device_samsung_a.Audio.State.{World, Hw, OutStream}
use android_device_samsung_a.Audio.Modem.{
  connect_rild_if_required, set_voice_volume_l, set_incall_path_l, set_input_source_l, activate_cp,
}
use android_device_samsung_a.Audio.Sound.{Slack, IsCounted}

module _ (k : Slack) (p q : ℕ) (h : Hw) where
  pub set_voice_volume_l-IsCounted :
      (w : World) (v : ℕ) (out : Option OutStream)
      → IsCounted k p q h
      → IsCounted k p q (set_voice_volume_l w v out h)
  unfolding set_voice_volume_l connect_rild_if_required
  set_voice_volume_l-IsCounted w v out ok = ground arith

  pub set_incall_path_l-IsCounted :
      (w : World) (device : ℕ) → IsCounted k p q h → IsCounted k p q (set_incall_path_l w device h)
  unfolding set_incall_path_l connect_rild_if_required
  set_incall_path_l-IsCounted w device ok = ground arith

  pub set_input_source_l-IsCounted :
      (w : World) (source : ℕ)
      → IsCounted k p q h
      → IsCounted k p q (set_input_source_l w source h).1
  unfolding set_input_source_l
  set_input_source_l-IsCounted w source ok = ground arith

  pub activate_cp-IsCounted : (w : World) → IsCounted k p q h → IsCounted k p q (activate_cp w h)
  unfolding activate_cp connect_rild_if_required
  activate_cp-IsCounted w ok = ground arith
