-- ===== src/Audio/Sound/Streams.antt =====
-- open_l, close_l and doStandby_l of the streams of libaudio/AudioHardware.cpp, and the steps of
-- setMode, on the counts of the devices.
use android_device_samsung_a.Prelude.{
  ℕ, suc, ◌+◌, ◌≤◌, ◌≡◌, Bool, true, false, not, Option, none, some, if◌then◌else◌, arith,
}
use android_device_samsung_a.Audio.State.{World, Hw, OutStream, InStream, is_set, called}
use android_device_samsung_a.Audio.Card.{open_pcm_out_l, open_mixer_l, close_mixer_l}
use android_device_samsung_a.Audio.Streams.{
  out_opened, out_close_l, out_do_standby_l, out_open_route, out_open_l, in_close_l, in_open_route,
  in_open_l, release_echo_reference, get_echo_reference,
}
use android_device_samsung_a.Audio.Sound.{
  Slack, to_nat, holds, IsCounted, open_pcm_out_l-IsCounted, close_pcm_out_l-IsCounted,
  open_mixer_l-IsCounted, close_mixer_l-IsCounted,
}

-- An active stream has its device open, one in standby has neither the device nor the mixer.
abbrev pub IsSoundOut : OutStream → Type 0
IsSoundOut s = (is_set s.pcm ≡ not s.standby) × (holds s.mixer ≤ to_nat (not s.standby))

abbrev pub IsSoundIn : InStream → Type 0
IsSoundIn s = (is_set s.pcm ≡ not s.standby) × (holds s.mixer ≤ to_nat (not s.standby))

module _ (k : Slack) (p q : ℕ) where
  pub out_close_l-IsCounted :
      (s : OutStream) (h : Hw)
      → IsCounted k (holds s.pcm + p) (holds s.mixer + q) h
      → IsCounted k p q (out_close_l (s, h)).1
  unfolding out_close_l
  out_close_l-IsCounted s h ok = ground (
    arith,
    close_mixer_l-IsCounted k (holds s.pcm + p) q h,
    close_pcm_out_l-IsCounted k p q (close_mixer_l h),
    close_pcm_out_l-IsCounted k p q h,
  )

  out_open_route-IsCounted :
      (w : World) (o : Option ℕ) (s : OutStream) (h : Hw)
      → IsCounted k (holds s.pcm + p) (holds o + q) h
      → IsCounted k
          (holds (out_open_route w (o, h) s).0.pcm + p)
          (holds (out_open_route w (o, h) s).0.mixer + q)
          (out_open_route w (o, h) s).1
  unfolding out_open_route
  out_open_route-IsCounted w o s h ok = ground arith

  out_opened-IsCounted :
      (w : World) (o : Option ℕ) (s : OutStream) (h : Hw)
      → is_set s.mixer ≡ false
      → IsCounted k (holds o + p) q h
      → IsCounted k
          (holds (out_opened w (o, h) s).1.pcm + p)
          (holds (out_opened w (o, h) s).1.mixer + q)
          (out_opened w (o, h) s).2
  unfolding out_opened
  out_opened-IsCounted w none s h free ok = ground arith
  out_opened-IsCounted w (some n) s h free ok =
      let (o, h') = open_mixer_l w h in
      out_open_route-IsCounted w o (record s { pcm = some n }) h'
        (open_mixer_l-IsCounted k (holds (some n) + p) q h w ok)

  pub out_open_l-IsCounted :
      (w : World) (s : OutStream) (h : Hw)
      → is_set s.mixer ≡ false
      → IsCounted k p q h
      → IsCounted k
          (holds (out_open_l w (s, h)).1.pcm + p)
          (holds (out_open_l w (s, h)).1.mixer + q)
          (out_open_l w (s, h)).2
  unfolding out_open_l
  out_open_l-IsCounted w s h free ok =
      let (o, h') = open_pcm_out_l w h in
      out_opened-IsCounted w o s h' free (open_pcm_out_l-IsCounted k p q h w ok)

  pub in_close_l-IsCounted :
      (s : InStream) (h : Hw)
      → IsCounted k p (holds s.mixer + q) h
      → IsCounted k p q (in_close_l (s, h)).1
  unfolding in_close_l
  in_close_l-IsCounted s h ok = ground (arith, close_mixer_l-IsCounted k p q h)

  pub in_open_l-IsCounted :
      (w : World) (busy : Bool) (s : InStream) (h : Hw)
      → is_set s.mixer ≡ false
      → IsCounted k p q h
      → IsCounted k p (holds (in_open_l w busy (s, h)).1.mixer + q) (in_open_l w busy (s, h)).2
  unfolding in_open_l in_open_route
  in_open_l-IsCounted w busy s h free ok = ground (arith, open_mixer_l-IsCounted k p q (called h) w)

  pub out_do_standby_l-IsCounted :
      (s : OutStream) (h : Hw)
      → IsCounted k (holds s.pcm + p) (holds s.mixer + q) h
      → IsCounted k p q (out_do_standby_l (s, h)).1
  unfolding out_do_standby_l
  out_do_standby_l-IsCounted s h ok =
      out_close_l-IsCounted (record s { standby_cnt = suc s.standby_cnt; standby = true })
        (if s.standby then h else record h { wake_lock = false }) (ground arith)

  pub release_echo_reference-IsCounted :
      (e : Option ℕ) (out : Option OutStream) (h : Hw)
      → IsCounted k p q h
      → IsCounted k p q (release_echo_reference e (out, h)).1
  unfolding release_echo_reference
  release_echo_reference-IsCounted e out h ok = ground arith

  pub get_echo_reference-IsCounted :
      (w : World) (out : Option OutStream) (h : Hw)
      → IsCounted k p q h
      → IsCounted k p q (get_echo_reference w (out, h)).1
  unfolding get_echo_reference
  get_echo_reference-IsCounted w out h ok =
      ground (arith, release_echo_reference-IsCounted h.echo_reference out h)
