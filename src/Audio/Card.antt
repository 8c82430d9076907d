-- ===== src/Audio/Card.antt =====
-- The playback device and the mixer of libaudio/AudioHardware.cpp, which their users share by a count.
use android_device_samsung_a.Prelude.{ℕ, suc, ◌-◌, Option, none, some, ◌==◌, if◌then◌else◌}
use android_device_samsung_a.Audio.State.{World, Hw, called}

-- The pointer that is returned, and the members. A count above 0 is one below 2 ^ 32 less the users, which
-- are two of the device, and of the mixer two and the inputs.
unfoldable pub open_pcm_out_l : World → Hw → Option ℕ × Hw
open_pcm_out_l w h =
    if h.pcm_open_cnt == 0
    then elim h.pcm [
      | some p ↦ (none, h)
      | none ↦
          if w.answer h.calls
          then (
            some h.calls,
            record h { pcm = some h.calls; pcm_open_cnt = 1; calls = suc h.calls },
          )
          else (none, called h)
    ]
    else (h.pcm, record h { pcm_open_cnt = suc h.pcm_open_cnt })

unfoldable pub close_pcm_out_l : Hw → Hw
close_pcm_out_l h =
    if h.pcm_open_cnt == 0
    then h
    else if h.pcm_open_cnt == 1
    then record h { pcm_open_cnt = 0; pcm = none }
    else record h { pcm_open_cnt = h.pcm_open_cnt - 1 }

unfoldable pub open_mixer_l : World → Hw → Option ℕ × Hw
open_mixer_l w h =
    if h.mixer_open_cnt == 0
    then elim h.mixer [
      | some m ↦ (none, h)
      | none ↦
          if w.answer h.calls
          then (
            some h.calls,
            record h { mixer = some h.calls; mixer_open_cnt = 1; calls = suc h.calls },
          )
          else (none, called h)
    ]
    else (h.mixer, record h { mixer_open_cnt = suc h.mixer_open_cnt })

unfoldable pub close_mixer_l : Hw → Hw
close_mixer_l h =
    if h.mixer_open_cnt == 0
    then h
    else if h.mixer_open_cnt == 1
    then record h { mixer_open_cnt = 0; mixer = none }
    else record h { mixer_open_cnt = h.mixer_open_cnt - 1 }
