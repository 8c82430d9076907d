-- ===== src/Audio/Sound/Standby.antt =====
-- The invariant of `AudioHardware` as a whole, and that putting its streams in standby keeps it
-- (libaudio/AudioHardware.cpp).
use android_device_samsung_a.Prelude.{
  ℕ, suc, ◌+◌, ◌≤◌, ◌≡◌, ap, subst, Bool, true, false, not, inl, inr, Option, none, some,
  Option-cases, List, arith,
}
use android_device_samsung_a.Audio.State.{Hw, OutStream, InStream, Audio}
use android_device_samsung_a.Audio.Card.{close_pcm_out_l, close_mixer_l}
use android_device_samsung_a.Audio.Streams.{
  out_do_standby_l, out_close_l, in_close_l, leave_echo, in_do_standby_l, release_echo_reference,
}
use android_device_samsung_a.Audio.Mode.{
  get_active_input_l, standby_active_input, is_active, standby_output, force_standby,
}
use android_device_samsung_a.Audio.Sound.{Slack, to_nat, holds, IsCounted}
use android_device_samsung_a.Audio.Sound.Streams.{in_close_l-IsCounted}
use android_device_samsung_a.Audio.Sound.Inputs.{
  mixer_users, actives, AllSoundIn, mixer_users-actives, put_back-active, put_back-this,
  split_first-found, get_active_input_l-none,
}

abbrev pub out_pcm : Option OutStream → ℕ
out_pcm none = 0
out_pcm (some s) = holds s.pcm

abbrev pub out_mixer : Option OutStream → ℕ
out_mixer none = 0
out_mixer (some s) = holds s.mixer

-- The output has the device exactly if it is active, and the mixer only then.
abbrev pub IsSoundOutput : Option OutStream → Type 0
IsSoundOutput o = (out_pcm o ≡ to_nat (is_active o)) × (out_mixer o ≤ to_nat (is_active o))

-- Everything but the counts' slack: each stream is sound, one input at most is active, and the wake lock
-- is held exactly while the output is active.
abbrev pub IsSlack : Slack → Audio → Type 0
IsSlack k a =
    IsCounted k (out_pcm a.output) (out_mixer a.output + mixer_users a.inputs) a.hw
    × IsSoundOutput a.output
    × AllSoundIn a.inputs
    × (actives a.inputs ≤ 1)
    × (a.hw.wake_lock ≡ is_active a.output)

-- In a call the counts may have one more.
abbrev pub calm : Bool → Slack
calm b = record { in_call = b; over = to_nat b; under = 0 }

abbrev pub IsSound : Audio → Type 0
IsSound a = IsSlack (calm a.hw.in_call_audio_mode) a

pub settle : (c : Bool) (a : Audio) → IsSlack (calm c) a → IsSound a
settle true a ok = ground arith
settle false a ok = ground arith

-- The same output but for its echo reference.
abbrev pub SameOutput : Option OutStream → Option OutStream → Type 0
SameOutput o o' =
    (out_pcm o' ≡ out_pcm o) × (out_mixer o' ≡ out_mixer o) × (is_active o' ≡ is_active o)

module _ (k : Slack) (p q : ℕ) where
  leave_echo-IsCounted :
      (locked : Bool) (out out' : Option OutStream) (s s' : InStream) (h h' : Hw)
      → leave_echo locked out s h ≡ some (out', s', h')
      → IsCounted k p q h
      → IsCounted k p q h'
        × SameOutput out out'
        × (h'.wake_lock ≡ h.wake_lock)
        × (s'.mixer ≡ s.mixer)
  unfolding leave_echo release_echo_reference
  leave_echo-IsCounted locked out out' s s' h h' e ok = ground arith

module _ (k : Slack) (p q : ℕ) where
  in_close_l-all :
      (s : InStream) (h : Hw)
      → IsCounted k p (holds s.mixer + q) h
      → let (s', h') = in_close_l (s, h) in
        IsCounted k p q h'
        × (h'.wake_lock ≡ h.wake_lock)
        × (s'.pcm ≡ none)
        × (s'.mixer ≡ none)
        × (s'.standby ≡ s.standby)
  unfolding in_close_l close_mixer_l
  in_close_l-all s h ok = ground (arith, in_close_l-IsCounted k p q s h ok)

  pub in_do_standby_l-IsCounted :
      (locked : Bool) (out out' : Option OutStream) (s s' : InStream) (h h' : Hw)
      → in_do_standby_l locked out s h ≡ some (out', s', h')
      → IsCounted k p (holds s.mixer + q) h
      → IsCounted k p q h'
        × SameOutput out out'
        × (h'.wake_lock ≡ h.wake_lock)
        × (s'.pcm ≡ none)
        × (s'.mixer ≡ none)
        × (s'.standby ≡ true)
  unfolding in_do_standby_l
  in_do_standby_l-IsCounted locked out out' s s' h h' e ok =
      let t = record s { standby_cnt = suc s.standby_cnt } in
      elim (Option-cases (leave_echo locked out t h)) [
        | inl n ↦ ground (arith, n, in_close_l-all t h ok)
        | inr ((o, u, g), n) ↦ ground (
          arith,
          n,
          in_close_l-all t h ok,
          leave_echo-IsCounted k p (holds s.mixer + q) locked out o t u h g n ok,
          in_close_l-all (record u { standby = true }) g,
        )
      ]

  pub standby_output-IsCounted :
      (o : Option OutStream) (h : Hw)
      → IsSoundOutput o
      → (h.wake_lock ≡ is_active o)
      → IsCounted k (out_pcm o + p) (out_mixer o + q) h
      → let (o', h') = standby_output o h in
        IsCounted k p q h'
        × (out_pcm o' ≡ 0)
        × (out_mixer o' ≡ 0)
        × (is_active o' ≡ false)
        × (h'.wake_lock ≡ false)
  unfolding out_do_standby_l out_close_l close_mixer_l close_pcm_out_l
  standby_output-IsCounted none h so wl ok = ground arith
  standby_output-IsCounted (some s) h so wl ok = ground arith

-- Whoever else uses the devices: `p` and `q`.
module _ (k : Slack) (locked : Bool) (p q : ℕ) where
  pub standby_active_input-IsCounted :
      (out : Option OutStream) (h : Hw) (ss : List InStream) (a' : Audio)
      → standby_active_input locked (record { hw = h; output = out; inputs = ss }) ≡ some a'
      → IsCounted k p (q + mixer_users ss) h
      → AllSoundIn ss
      → actives ss ≤ 1
      → IsCounted k p q a'.hw
        × AllSoundIn a'.inputs
        × (actives a'.inputs ≡ 0)
        × (mixer_users a'.inputs ≡ 0)
        × SameOutput out a'.output
        × (a'.hw.wake_lock ≡ h.wake_lock)
  unfolding standby_active_input get_active_input_l
  standby_active_input-IsCounted out h ss a' e ok every few =
      elim (Option-cases (get_active_input_l ss)) [
        | inl n ↦ ground (arith, n, get_active_input_l-none ss n, mixer_users-actives ss)
        | inr (x, n) ↦
            let (same, active) = split_first-found (λ s. not s.standby) ss x n in
            elim (Option-cases (in_do_standby_l locked out x.this h)) [
              | inl m ↦ ground (arith, n, m)
              | inr ((o, s, g), m) ↦
                  let all = subst AllSoundIn same every in
                  let one = subst (λ r. actives r ≤ 1) same few in
                  let users = put_back-active x x.this active all one (put_back-this x all) in
                  ground (
                    arith,
                    n,
                    m,
                    ap mixer_users same,
                    users,
                    in_do_standby_l-IsCounted k p q locked out o x.this s h g m,
                    put_back-active x s active all one,
                  )
            ]
      ]

module _ (k : Slack) (locked : Bool) where
  pub standby_active_input-IsSlack :
      (out : Option OutStream) (h : Hw) (ss : List InStream) (a' : Audio)
      → standby_active_input locked (record { hw = h; output = out; inputs = ss }) ≡ some a'
      → IsSlack k (record { hw = h; output = out; inputs = ss })
      → IsSlack k a'
        × (actives a'.inputs ≡ 0)
        × (mixer_users a'.inputs ≡ 0)
        × SameOutput out a'.output
  standby_active_input-IsSlack out h ss a' e ok = ground (
    arith,
    standby_active_input-IsCounted k locked (out_pcm out) (out_mixer out) out h ss a' e ok.0,
  )

module _ (k : Slack) where
  pub force_standby-IsSlack :
      (out : Option OutStream) (h : Hw) (ss : List InStream) (a' : Audio)
      → force_standby (record { hw = h; output = out; inputs = ss }) ≡ some a'
      → IsSlack k (record { hw = h; output = out; inputs = ss })
      → IsSlack k a'
        × (out_pcm a'.output ≡ 0)
        × (out_mixer a'.output ≡ 0)
        × (mixer_users a'.inputs ≡ 0)
  unfolding force_standby
  force_standby-IsSlack out h ss a' e ok =
      let (o, g) = standby_output out h in
      ground (
        arith,
        standby_output-IsCounted k 0 (mixer_users ss) out h ok.1 ok.4,
        standby_active_input-IsSlack k (is_active out) o g ss a' e,
      )
