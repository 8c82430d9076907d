-- ===== src/Audio/Mode/Invariant.antt =====
-- setMode and setMicMute of libaudio/AudioHardware.cpp keep the invariant.
use android_device_samsung_a.Prelude.{
  ℕ, ◌+◌, ◌≡◌, ◌∙◌, Bool, true, false, Bool-cases, inl, inr, Option, some, Option-cases, List,
  if◌then◌else◌, ◌==◌, arith,
}
use android_device_samsung_a.Audio.State.{
  World, Hw, OutStream, InStream, Audio, is_set, select, playback_path,
}
use android_device_samsung_a.Audio.Routes.{rcv, mode_in_call, mode_normal}
use android_device_samsung_a.Audio.Card.{
  open_pcm_out_l, open_mixer_l, close_pcm_out_l, close_mixer_l,
}
use android_device_samsung_a.Audio.Modem.{
  connect_rild_if_required, set_voice_volume_l, set_input_source_l, activate_cp,
}
use android_device_samsung_a.Audio.Mode.{
  force_standby, hold_call, release_call, enter_call, leave_call, to_call, to_normal, on_hw,
  change_mode, set_mode, set_mic_mute,
}
use android_device_samsung_a.Audio.Sound.{
  Slack, IsCounted, open_pcm_out_l-IsCounted, open_mixer_l-IsCounted,
}
use android_device_samsung_a.Audio.Sound.Modem.{
  set_voice_volume_l-IsCounted, set_input_source_l-IsCounted, activate_cp-IsCounted,
}
use android_device_samsung_a.Audio.Sound.Inputs.{mixer_users}
use android_device_samsung_a.Audio.Sound.Standby.{
  out_pcm, out_mixer, IsSlack, IsSound, calm, settle, force_standby-IsSlack,
  standby_active_input-IsSlack,
}

-- On leaving a call, the counts may be one too low until the streams are in standby.
abbrev leaving : Slack
leaving = record { in_call = true; over = 0; under = 1 }

hold_call-IsCounted :
    (w : World) (out : Option OutStream) (h : Hw)
    → IsCounted (calm false) 0 0 h
    → IsCounted (calm true) 0 0 (hold_call w out h)
unfolding hold_call
hold_call-IsCounted w out h ok =
    let (o, h1) = open_pcm_out_l w h in
    let (m, h2) = open_mixer_l w h1 in
    let (st, h3) = set_input_source_l w 0 h2 in
    let ok1 = open_pcm_out_l-IsCounted (calm false) 0 0 h w ok in
    let ok2 = open_mixer_l-IsCounted (calm false) _ 0 h1 w ok1 in
    let ok3 = set_input_source_l-IsCounted (calm false) _ _ h2 w 0 ok2 in
    let ok4 = set_voice_volume_l-IsCounted (calm false) _ _ h3 w h3.voice_vol out ok3 in
    ground arith

close_both-IsCounted :
    (p q : ℕ) (h : Hw)
    → IsCounted (calm true) p q h
    → IsCounted leaving p q (close_pcm_out_l (close_mixer_l h))
unfolding close_pcm_out_l close_mixer_l
close_both-IsCounted p q h ok = ground arith

reset_path-IsCounted :
    (w : World) (p q : ℕ) (h : Hw)
    → IsCounted (calm true) p q h
    → IsCounted (calm true) p q (if is_set h.mixer then select w playback_path rcv h else h)
reset_path-IsCounted w p q h ok = ground arith

release_call-IsCounted :
    (w : World) (p q : ℕ) (h : Hw)
    → IsCounted (calm true) p q h
    → IsCounted leaving p q (release_call w h)
unfolding release_call
release_call-IsCounted w p q h ok =
    let h1 = (set_input_source_l w h.source h).1 in
    let ok1 = set_input_source_l-IsCounted (calm true) p q h w h.source ok in
    close_both-IsCounted p q (if is_set h1.mixer then select w playback_path rcv h1 else h1)
      (reset_path-IsCounted w p q h1 ok1)

-- The wake lock is the output's.
module _ (h : Hw) (w : World) where
  open_pcm_out_l-wake_lock : (open_pcm_out_l w h).1.wake_lock ≡ h.wake_lock
  unfolding open_pcm_out_l
  open_pcm_out_l-wake_lock = ground arith

  open_mixer_l-wake_lock : (open_mixer_l w h).1.wake_lock ≡ h.wake_lock
  unfolding open_mixer_l
  open_mixer_l-wake_lock = ground arith

  close_both-wake_lock : (close_pcm_out_l (close_mixer_l h)).wake_lock ≡ h.wake_lock
  unfolding close_pcm_out_l close_mixer_l
  close_both-wake_lock = ground arith

  set_input_source_l-wake_lock :
      (source : ℕ) → (set_input_source_l w source h).1.wake_lock ≡ h.wake_lock
  unfolding set_input_source_l
  set_input_source_l-wake_lock source = ground arith

  set_voice_volume_l-wake_lock :
      (v : ℕ) (out : Option OutStream) → (set_voice_volume_l w v out h).wake_lock ≡ h.wake_lock
  unfolding set_voice_volume_l connect_rild_if_required
  set_voice_volume_l-wake_lock v out = ground arith

  activate_cp-wake_lock : (activate_cp w h).wake_lock ≡ h.wake_lock
  unfolding activate_cp connect_rild_if_required
  activate_cp-wake_lock = ground arith

hold_call-wake_lock :
    (w : World) (out : Option OutStream) (h : Hw) → (hold_call w out h).wake_lock ≡ h.wake_lock
unfolding hold_call
hold_call-wake_lock w out h =
    let h1 = (open_pcm_out_l w h).1 in
    let h2 = (open_mixer_l w h1).1 in
    let h3 = (set_input_source_l w 0 h2).1 in
    set_voice_volume_l-wake_lock h3 w h3.voice_vol out
    ∙ set_input_source_l-wake_lock h2 w 0
    ∙ open_mixer_l-wake_lock h1 w
    ∙ open_pcm_out_l-wake_lock h w

release_call-wake_lock : (w : World) (h : Hw) → (release_call w h).wake_lock ≡ h.wake_lock
unfolding release_call
release_call-wake_lock w h =
    let h1 = (set_input_source_l w h.source h).1 in
    let h2 = if is_set h1.mixer then select w playback_path rcv h1 else h1 in
    let reset : h2.wake_lock ≡ h1.wake_lock = ground arith in
    close_both-wake_lock h2 w ∙ reset ∙ set_input_source_l-wake_lock h w h.source

enter_call-IsSound :
    (w : World) (out : Option OutStream) (h : Hw) (ss : List InStream) (a' : Audio)
    → enter_call w (record { hw = h; output = out; inputs = ss }) ≡ some a'
    → IsSlack (calm false) (record { hw = h; output = out; inputs = ss })
    → IsSlack (calm true) a'
unfolding enter_call
enter_call-IsSound w out h ss a' e ok =
    elim (Option-cases (force_standby (record { hw = h; output = out; inputs = ss }))) [
      | inl n ↦ ground (arith, n)
      | inr (b, n) ↦
          let (slack, o1, o2, o3) = force_standby-IsSlack (calm false) out h ss b n ok in
          ground
            (arith, n, hold_call-IsCounted w b.output b.hw, hold_call-wake_lock w b.output b.hw)
    ]

leave_call-IsSound :
    (w : World) (out : Option OutStream) (h : Hw) (ss : List InStream) (a' : Audio)
    → leave_call w (record { hw = h; output = out; inputs = ss }) ≡ some a'
    → IsSlack (calm true) (record { hw = h; output = out; inputs = ss })
    → IsSlack (calm false) a'
unfolding leave_call
leave_call-IsSound w out h ss a' e ok =
    let g = release_call w h in
    elim (Option-cases (force_standby (record { hw = g; output = out; inputs = ss }))) [
      | inl n ↦ ground (arith, n)
      | inr (b, n) ↦
          let before =
            release_call-IsCounted w (out_pcm out) (out_mixer out + mixer_users ss) h ok.0 in
          let (slack, o1, o2, o3) =
            force_standby-IsSlack leaving out g ss b n
              (before, ok.1, ok.2, ok.3, release_call-wake_lock w h ∙ ok.4) in
          ground (arith, n)
    ]

to_call-IsSound :
    (w : World) (c : Bool) (out : Option OutStream) (h : Hw) (ss : List InStream) (a' : Audio)
    → to_call w c (record { hw = h; output = out; inputs = ss }) ≡ some a'
    → IsSlack (calm c) (record { hw = h; output = out; inputs = ss })
    → IsSound a'
unfolding to_call
to_call-IsSound w true out h ss a' e ok =
    ground (arith, settle true (record { hw = h; output = out; inputs = ss }))
to_call-IsSound w false out h ss a' e ok = settle true a' (enter_call-IsSound w out h ss a' e ok)

to_normal-IsSound :
    (w : World) (c : Bool) (out : Option OutStream) (h : Hw) (ss : List InStream) (a' : Audio)
    → to_normal w c (record { hw = h; output = out; inputs = ss }) ≡ some a'
    → IsSlack (calm c) (record { hw = h; output = out; inputs = ss })
    → IsSound a'
unfolding to_normal
to_normal-IsSound w true out h ss a' e ok = settle false a' (leave_call-IsSound w out h ss a' e ok)
to_normal-IsSound w false out h ss a' e ok =
    ground (arith, settle false (record { hw = h; output = out; inputs = ss }))

unmoved-IsSound :
    (w : World) (out : Option OutStream) (h : Hw) (ss : List InStream) (a' : Audio)
    → (if h.mode == mode_normal
        then on_hw
            (λ g. record g { activated_cp = false })
            (to_normal w h.in_call_audio_mode (record { hw = h; output = out; inputs = ss }))
        else some (record { hw = h; output = out; inputs = ss }))
      ≡ some a'
    → IsSound (record { hw = h; output = out; inputs = ss })
    → IsSound a'
unmoved-IsSound w out h ss a' e ok =
    elim (Option-cases
      (to_normal w h.in_call_audio_mode (record { hw = h; output = out; inputs = ss }))) [
        | inl n ↦ ground (arith, n)
        | inr (b, n) ↦ ground (arith, n, to_normal-IsSound w h.in_call_audio_mode out h ss b n ok)
      ]

change_mode-IsSound :
    (w : World) (out : Option OutStream) (h : Hw) (ss : List InStream) (a' : Audio)
    → change_mode w (record { hw = h; output = out; inputs = ss }) ≡ some a'
    → IsSound (record { hw = h; output = out; inputs = ss })
    → IsSound a'
unfolding change_mode
change_mode-IsSound w out h ss a' e ok =
    let c = h.in_call_audio_mode in
    let g = activate_cp w h in
    let active =
      activate_cp-IsCounted (calm c) (out_pcm out) (out_mixer out + mixer_users ss) h w ok.0 in
    let wake = activate_cp-wake_lock h w ∙ ok.4 in
    elim (Bool-cases (h.mode == mode_in_call)) [
      | inl b ↦ to_call-IsSound w c out g ss a' (ground (arith, b)) (active, ok.1, ok.2, ok.3, wake)
      | inr b ↦ unmoved-IsSound w out h ss a' (ground (arith, b)) ok
    ]

-- setMode keeps the invariant, for every mode, whatever the base class answers, and whether the devices
-- and the modem answer or not: the counts of the playback device and of the mixer are those of the
-- streams, with one more at most in a call; each stream in standby has neither; one input at most is
-- active; and the wake lock is held exactly while the output is active.
pub set_mode-IsSound :
    (w : World) (mode : ℕ) (a a' : Audio) → (set_mode w mode a).1 ≡ some a' → IsSound a → IsSound a'
unfolding set_mode
set_mode-IsSound w mode a a' e ok =
    ground (arith, change_mode-IsSound w a.output (record a.hw { mode = mode }) a.inputs a')

pub set_mic_mute-IsSound :
    (w : World) (state : Bool) (a a' : Audio)
    → set_mic_mute w state a ≡ some a'
    → IsSound a
    → IsSound a'
unfolding set_mic_mute connect_rild_if_required
set_mic_mute-IsSound w state a a' e ok =
    let muted = record a.hw { mic_mute = state } in
    let c = a.hw.in_call_audio_mode in
    ground
      (arith, settle c a', standby_active_input-IsSlack (calm c) false a.output muted a.inputs a')
