-- ===== src/Audio/Sound/Fields.antt =====
-- What the steps on a stream of libaudio/AudioHardware.cpp leave in its members.
use android_device_samsung_a.Prelude.{
  ℕ, ◌≤◌, ◌≡◌, Bool, true, false, Option, none, if◌then◌else◌, arith,
}
use android_device_samsung_a.Audio.State.{World, Hw, OutStream, InStream, is_set, called}
use android_device_samsung_a.Audio.Card.{
  open_pcm_out_l, close_pcm_out_l, open_mixer_l, close_mixer_l,
}
use android_device_samsung_a.Audio.Streams.{
  out_opened, out_close_l, out_do_standby_l, out_open_route, out_open_l, in_close_l, in_open_route,
  in_open_l,
}
use android_device_samsung_a.Audio.Sound.{holds}

pub open_pcm_out_l-wake_lock : (w : World) (h : Hw) → (open_pcm_out_l w h).1.wake_lock ≡ h.wake_lock
unfolding open_pcm_out_l
open_pcm_out_l-wake_lock w h = ground arith

pub open_mixer_l-wake_lock : (w : World) (h : Hw) → (open_mixer_l w h).1.wake_lock ≡ h.wake_lock
unfolding open_mixer_l
open_mixer_l-wake_lock w h = ground arith

pub out_close_l-fields :
    (s : OutStream) (h : Hw)
    → let (s', h') = out_close_l (s, h) in
      (s'.standby ≡ s.standby) × (s'.pcm ≡ none) × (s'.mixer ≡ none) × (h'.wake_lock ≡ h.wake_lock)
unfolding out_close_l close_pcm_out_l close_mixer_l
out_close_l-fields s h = ground arith

pub out_do_standby_l-fields :
    (s : OutStream) (h : Hw)
    → let (s', h') = out_do_standby_l (s, h) in
      (s'.standby ≡ true)
      × (s'.pcm ≡ none)
      × (s'.mixer ≡ none)
      × (h'.wake_lock ≡ (if s.standby then h.wake_lock else false))
unfolding out_do_standby_l out_close_l close_pcm_out_l close_mixer_l
out_do_standby_l-fields s h = ground arith

-- The mixer is opened behind the device only.
abbrev pub IsOpenedOut : OutStream → Hw → Bool × OutStream × Hw → Type 0
IsOpenedOut s h (ok, s', h') =
    (s'.standby ≡ s.standby)
    × (ok ≡ is_set s'.pcm)
    × (h'.wake_lock ≡ h.wake_lock)
    × (holds s'.mixer ≤ holds s'.pcm)

out_opened-fields :
    (w : World) (o : Option ℕ) (s : OutStream) (h : Hw)
    → is_set s.mixer ≡ false
    → IsOpenedOut s h (out_opened w (o, h) s)
unfolding out_opened out_open_route
out_opened-fields w o s h free = ground (arith, open_mixer_l-wake_lock w h)

pub out_open_l-fields :
    (w : World) (s : OutStream) (h : Hw)
    → is_set s.mixer ≡ false
    → IsOpenedOut s h (out_open_l w (s, h))
unfolding out_open_l
out_open_l-fields w s h free =
    let (o, h') = open_pcm_out_l w h in
    ground (arith, out_opened-fields w o s h' free, open_pcm_out_l-wake_lock w h)

pub in_close_l-fields :
    (s : InStream) (h : Hw)
    → let (s', h') = in_close_l (s, h) in
      (s'.standby ≡ s.standby) × (s'.pcm ≡ none) × (s'.mixer ≡ none) × (h'.wake_lock ≡ h.wake_lock)
unfolding in_close_l close_mixer_l
in_close_l-fields s h = ground arith

pub in_open_l-fields :
    (w : World) (busy : Bool) (s : InStream) (h : Hw)
    → is_set s.mixer ≡ false
    → let (ok, s', h') = in_open_l w busy (s, h) in
      (s'.standby ≡ s.standby)
      × (ok ≡ is_set s'.pcm)
      × (h'.wake_lock ≡ h.wake_lock)
      × (holds s'.mixer ≤ holds s'.pcm)
      × (ok ≡ w.capture h.calls busy)
unfolding in_open_l in_open_route
in_open_l-fields w busy s h free = ground (arith, open_mixer_l-wake_lock w (called h))
