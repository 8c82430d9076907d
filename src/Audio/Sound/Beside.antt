-- ===== src/Audio/Sound/Beside.antt =====
-- The invariant of libaudio/AudioHardware.cpp from the place of one input beside the others.
use android_device_samsung_a.Prelude.{ℕ, ◌+◌, ◌≤◌, ◌≡◌, ap, subst, Bool, not, Option, some, arith}
use android_device_samsung_a.Audio.State.{Hw, OutStream, InStream, Audio}
use android_device_samsung_a.Audio.Streams.{in_do_standby_l}
use android_device_samsung_a.Audio.Mode.{Split, put_back, is_active}
use android_device_samsung_a.Audio.Sound.{Slack, to_nat, holds, IsCounted}
use android_device_samsung_a.Audio.Sound.Streams.{IsSoundIn}
use android_device_samsung_a.Audio.Sound.Inputs.{
  mixer_users, actives, AllSoundIn, put_back-mixer_users, put_back-actives, put_back-AllSoundIn,
  put_back-this,
}
use android_device_samsung_a.Audio.Sound.Standby.{
  out_pcm, out_mixer, IsSlack, IsSoundOutput, in_do_standby_l-IsCounted,
}

-- The output beside `q` other users of the mixer.
abbrev pub IsBeside : Slack → ℕ → Option OutStream → Hw → Type 0
IsBeside k q o h =
    IsCounted k (out_pcm o) (out_mixer o + q) h × IsSoundOutput o × (h.wake_lock ≡ is_active o)

-- What the other inputs count.
abbrev pub others_mixer : Split → ℕ
others_mixer x = mixer_users x.before + mixer_users x.after

abbrev pub others_active : Split → ℕ
others_active x = actives x.before + actives x.after

-- An input at its place, with room for it if it is active.
abbrev pub IsPlaced : Slack → Split → Option OutStream → InStream → Hw → Type 0
IsPlaced k x o s h =
    IsBeside k (holds s.mixer + others_mixer x) o h
    × IsSoundIn s
    × (to_nat (not s.standby) + others_active x ≤ 1)

module _ (k : Slack) (x : Split) where
  pub put_back-IsSlack :
      (o : Option OutStream) (s : InStream) (h : Hw)
      → AllSoundIn (put_back x x.this)
      → IsPlaced k x o s h
      → IsSlack k (record { hw = h; output = o; inputs = put_back x s })
  put_back-IsSlack o s h all placed =
      ground (
        arith,
        put_back-mixer_users x s,
        put_back-actives x s,
        put_back-AllSoundIn x s all placed.1,
      )

  pub to_beside :
      (a : Audio)
      → a.inputs ≡ put_back x x.this
      → IsSlack k a
      → AllSoundIn (put_back x x.this) × IsPlaced k x a.output x.this a.hw
  to_beside a same so =
      let all = subst AllSoundIn same so.2 in
      ground (
        arith,
        all,
        ap mixer_users same,
        ap actives same,
        put_back-mixer_users x x.this,
        put_back-actives x x.this,
        put_back-this x all,
        so.0,
        so.1,
        so.3,
        so.4,
      )

  pub in_do_standby_l-IsFree :
      (locked : Bool) (out o : Option OutStream) (s t : InStream) (h g : Hw)
      → in_do_standby_l locked out s h ≡ some (o, t, g)
      → IsBeside k (holds s.mixer + others_mixer x) out h
      → others_active x ≤ 1
      → IsPlaced k x o t g × (holds t.mixer ≡ 0)
  in_do_standby_l-IsFree locked out o s t h g n so few =
      let counted =
        in_do_standby_l-IsCounted k (out_pcm out) (out_mixer out + others_mixer x) locked out o s t
          h g n (ground (arith, so.0)) in
      ground (arith, counted)

  pub in_do_standby_l-IsPlaced :
      (locked : Bool) (out o : Option OutStream) (s t : InStream) (h g : Hw)
      → in_do_standby_l locked out s h ≡ some (o, t, g)
      → IsBeside k (holds s.mixer + others_mixer x) out h
      → others_active x ≤ 1
      → IsPlaced k x o t g
  in_do_standby_l-IsPlaced locked out o s t h g n so few =
      (in_do_standby_l-IsFree locked out o s t h g n so few).0
