-- ===== src/Audio/Client/Invariant.antt =====
-- The interface of libaudio/AudioHardware.cpp besides setMode, `write` and `read` keeps the invariant.
use android_device_samsung_a.Prelude.{
  ℕ, zero, suc, ◌+◌, ◌≡◌, refl, subst, Bool, false, inl, inr, Option, none, some, Option-cases,
  List, if◌then◌else◌, arith,
}
use android_device_samsung_a.Audio.Routes.{TtyMode}
use android_device_samsung_a.Audio.State.{World, Hw, OutStream, InStream, Audio}
use android_device_samsung_a.Audio.Streams.{out_do_standby_l, in_do_standby_l}
use android_device_samsung_a.Audio.Modem.{
  connect_rild_if_required, set_voice_volume_l, set_incall_path_l, set_input_source_l,
}
use android_device_samsung_a.Audio.Mode.{Split, split_first, put_back}
use android_device_samsung_a.Audio.Client.{
  is_id, at_output, out_standby, replaced, at_input, in_standby,
}
use android_device_samsung_a.Audio.Client.Settings.{
  set_voice_volume, with_nrec, with_tty, same_tty, set_parameters, route_output, out_set_parameters,
}
use android_device_samsung_a.Audio.Sound.{Slack, holds, IsCounted}
use android_device_samsung_a.Audio.Sound.Modem.{
  set_voice_volume_l-IsCounted, set_incall_path_l-IsCounted,
}
use android_device_samsung_a.Audio.Sound.Streams.{out_do_standby_l-IsCounted}
use android_device_samsung_a.Audio.Sound.Fields.{out_do_standby_l-fields}
use android_device_samsung_a.Audio.Sound.Inputs.{mixer_users, AllSoundIn, split_first-found}
use android_device_samsung_a.Audio.Sound.Beside.{
  IsPlaced, put_back-IsSlack, to_beside, in_do_standby_l-IsPlaced,
}
use android_device_samsung_a.Audio.Sound.Standby.{
  out_pcm, out_mixer, IsSlack, IsSound, calm, settle,
}

-- The wake lock is the output's.
module _ (h : Hw) (w : World) where
  set_voice_volume_l-wake_lock :
      (v : ℕ) (out : Option OutStream) → (set_voice_volume_l w v out h).wake_lock ≡ h.wake_lock
  unfolding set_voice_volume_l connect_rild_if_required
  set_voice_volume_l-wake_lock v out = ground arith

  set_incall_path_l-wake_lock :
      (device : ℕ) → (set_incall_path_l w device h).wake_lock ≡ h.wake_lock
  unfolding set_incall_path_l connect_rild_if_required
  set_incall_path_l-wake_lock device = ground arith

  pub set_input_source_l-wake_lock :
      (source : ℕ) → (set_input_source_l w source h).1.wake_lock ≡ h.wake_lock
  unfolding set_input_source_l
  set_input_source_l-wake_lock source = ground arith

-- Of an operation on one input.
module _ (k : Slack) (a : Audio) (so : IsSlack k a) where
  pub at_input-IsSlack :
      (id : ℕ) (f : Split → Option Audio) (a' : Audio)
      → ((x : Split)
          → AllSoundIn (put_back x x.this)
          → IsPlaced k x a.output x.this a.hw
          → f x ≡ some a'
          → IsSlack k a')
      → at_input id f a ≡ some a'
      → IsSlack k a'
  unfolding at_input
  at_input-IsSlack id f a' each e = elim (Option-cases (split_first (is_id id) a.inputs)) [
    | inl n ↦ ground (arith, n)
    | inr (x, n) ↦
        let (all, placed) = to_beside k x a (split_first-found (is_id id) a.inputs x n).0 so in
        each x all placed (ground (arith, n))
  ]

-- What an operation on an input gives, put back.
module _ (k : Slack) (x : Split) (all : AllSoundIn (put_back x x.this)) where
  pub replaced-IsSlack :
      (r : Option (Option OutStream × InStream × Hw)) (a' : Audio)
      → ((o : Option OutStream) (s : InStream) (h : Hw) → r ≡ some (o, s, h) → IsPlaced k x o s h)
      → replaced x r ≡ some a'
      → IsSlack k a'
  replaced-IsSlack none a' each e = ground arith
  replaced-IsSlack (some (o, s, h)) a' each e =
      ground (arith, put_back-IsSlack k x o s h all (each o s h refl))

pub in_standby-IsSound :
    (id : ℕ) (a a' : Audio) → in_standby id a ≡ some a' → IsSound a → IsSound a'
unfolding in_standby
in_standby-IsSound id a a' e so =
    let k = calm a.hw.in_call_audio_mode in
    settle a.hw.in_call_audio_mode a' (
      at_input-IsSlack k a so id (λ x. replaced x (in_do_standby_l false a.output x.this a.hw)) a'
        (λ x all placed.
          replaced-IsSlack k x all (in_do_standby_l false a.output x.this a.hw) a' (λ o s h n.
            in_do_standby_l-IsPlaced k x false a.output o x.this s a.hw h n placed.0
              (ground (arith, placed.2))))
        e)

pub set_voice_volume-IsSound :
    (w : World) (volume : ℕ) (a : Audio) → IsSound a → IsSound (set_voice_volume w volume a)
unfolding set_voice_volume
set_voice_volume-IsSound w volume a so =
    let c = a.hw.in_call_audio_mode in
    settle c (set_voice_volume w volume a) (
      ground (
        arith,
        set_voice_volume_l-IsCounted (calm c) (out_pcm a.output)
            (out_mixer a.output + mixer_users a.inputs) a.hw w volume a.output,
        set_voice_volume_l-wake_lock a.hw w volume a.output,
      ))

-- The HAL with other members of `Hw`, the counts as they are.
abbrev IsCountedAs : Audio → Hw → Type 0
IsCountedAs a h =
    IsCounted (calm a.hw.in_call_audio_mode) (out_pcm a.output)
      (out_mixer a.output + mixer_users a.inputs) h
    × (h.wake_lock ≡ a.hw.wake_lock)

with_hw-IsSound : (a : Audio) (h : Hw) → IsSound a → IsCountedAs a h → IsSound (record a { hw = h })
with_hw-IsSound a h so counted = settle a.hw.in_call_audio_mode (record a { hw = h }) (ground arith)

with_tty-IsCountedAs :
    (w : World) (m : TtyMode) (a : Audio) (h : Hw)
    → IsCountedAs a h
    → IsCountedAs a (with_tty w m a.output h)
with_tty-IsCountedAs w m a h counted =
    let c = calm a.hw.in_call_audio_mode in
    let q = out_mixer a.output + mixer_users a.inputs in
    let g = record h { tty_mode = m } in
    elim (Option-cases a.output) [
      | inl n ↦ ground (arith, n)
      | inr (s, n) ↦ ground (
        arith,
        n,
        set_incall_path_l-IsCounted c (out_pcm a.output) q g w s.devices,
        set_incall_path_l-wake_lock g w s.devices,
      )
    ]

with_nrec-IsCountedAs :
    (nrec : Option Bool) (a : Audio) → IsSound a → IsCountedAs a (with_nrec nrec a.hw)
with_nrec-IsCountedAs none a so = (so.0, refl)
with_nrec-IsCountedAs (some on) a so = (so.0, refl)

pub set_parameters-IsSound :
    (w : World) (nrec : Option Bool) (tty : Option (Option TtyMode)) (a : Audio)
    → IsSound a
    → IsSound (set_parameters w nrec tty a).1
unfolding set_parameters
set_parameters-IsSound w nrec none a so =
    with_hw-IsSound a (with_nrec nrec a.hw) so (with_nrec-IsCountedAs nrec a so)
set_parameters-IsSound w nrec (some none) a so =
    with_hw-IsSound a (with_nrec nrec a.hw) so (with_nrec-IsCountedAs nrec a so)
set_parameters-IsSound w nrec (some (some m)) a so =
    let h = with_nrec nrec a.hw in
    let counted = with_nrec-IsCountedAs nrec a so in
    with_hw-IsSound a (if same_tty m h.tty_mode then h else with_tty w m a.output h) so
      (ground (arith, counted, with_tty-IsCountedAs w m a h counted))

-- Of an operation on the output.
at_output-IsSound :
    (f : OutStream × Hw → OutStream × Hw) (o : Option OutStream) (a : Audio)
    → ((s : OutStream)
        → IsSlack (calm a.hw.in_call_audio_mode) (record a { output = some s })
        → IsSlack
            (calm a.hw.in_call_audio_mode)
            (record a { hw = (f (s, a.hw)).1; output = some (f (s, a.hw)).0 }))
    → a.output ≡ o
    → IsSound a
    → IsSound (at_output f o a)
at_output-IsSound f none a each n so = so
at_output-IsSound f (some s) a each n so =
    let c = a.hw.in_call_audio_mode in
    settle c (at_output f (some s) a)
      (each s (subst (λ o. IsSlack (calm c) (record a { output = o })) n so))

module _ (k : Slack) (w : World) (device : ℕ) (ss : List InStream) where
  route_output-IsSlack :
      (s : OutStream) (h : Hw)
      → IsSlack k (record { hw = h; output = some s; inputs = ss })
      → let (s', h') = route_output w device (s, h) in
        IsSlack k (record { hw = h'; output = some s'; inputs = ss })
  unfolding route_output
  route_output-IsSlack s h so =
      let moved = record s { devices = device } in
      ground (
        arith,
        out_do_standby_l-IsCounted k 0 (mixer_users ss) moved h,
        out_do_standby_l-fields moved h,
        set_incall_path_l-IsCounted k (holds s.pcm) (holds s.mixer + mixer_users ss) h w device,
        set_incall_path_l-wake_lock h w device,
      )

pub out_set_parameters-IsSound :
    (w : World) (routing : Option ℕ) (rest : Bool) (a : Audio)
    → IsSound a
    → IsSound (out_set_parameters w routing rest a).1
unfolding out_set_parameters
out_set_parameters-IsSound w none rest a so = so
out_set_parameters-IsSound w (some zero) rest a so = so
out_set_parameters-IsSound w (some (suc d)) rest a so =
    at_output-IsSound (route_output w (suc d)) a.output a
      (λ s ok. route_output-IsSlack (calm a.hw.in_call_audio_mode) w (suc d) a.inputs s a.hw ok)
      refl so

pub out_standby-IsSound : (a : Audio) → IsSound a → IsSound (out_standby a)
unfolding out_standby
out_standby-IsSound a so =
    at_output-IsSound out_do_standby_l a.output a
      (λ s ok.
        let c = calm a.hw.in_call_audio_mode in
        ground (
          arith,
          ok,
          out_do_standby_l-IsCounted c 0 (mixer_users a.inputs) s a.hw,
          out_do_standby_l-fields s a.hw,
        ))
      refl so
