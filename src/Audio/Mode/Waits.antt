-- ===== src/Audio/Mode/Waits.antt =====
-- When setMode of libaudio/AudioHardware.cpp returns: it may wait for the output's mutex, which it holds.
use android_device_samsung_a.Prelude.{
  ℕ, ◌≡◌, refl, Bool, true, false, not, ◌&&◌, ◌||◌, inl, inr, Option, none, some, Option-cases,
  List, ◌==◌, arith,
}
use android_device_samsung_a.Audio.Routes.{mode_in_call, mode_normal}
use android_device_samsung_a.Audio.State.{World, Hw, OutStream, InStream, Audio, is_set}
use android_device_samsung_a.Audio.Streams.{leave_echo, in_do_standby_l}
use android_device_samsung_a.Audio.Modem.{activate_cp}
use android_device_samsung_a.Audio.Mode.{
  get_active_input_l, standby_active_input, is_active, standby_output, force_standby, release_call,
  enter_call, leave_call, is_no_error, to_call, to_normal, change_mode, set_mode,
}
use android_device_samsung_a.Audio.Sound.Inputs.{split_first-found}

-- Whether an active input has an echo reference.
abbrev pub has_echo : List InStream → Bool
has_echo ss = elim (get_active_input_l ss) [ none ↦ false | some x ↦ is_set x.this.echo_reference ]

in_do_standby_l-returns :
    (locked : Bool) (out : Option OutStream) (s : InStream) (h : Hw)
    → not s.standby ≡ true
    → is_set (in_do_standby_l locked out s h)
      ≡ not (locked && (is_set out && is_set s.echo_reference))
unfolding in_do_standby_l leave_echo
in_do_standby_l-returns locked out s h active = ground arith

standby_active_input-returns :
    (locked : Bool) (a : Audio)
    → is_set (standby_active_input locked a)
      ≡ not (locked && (is_set a.output && has_echo a.inputs))
unfolding standby_active_input get_active_input_l
standby_active_input-returns locked a = elim (Option-cases (get_active_input_l a.inputs)) [
  | inl n ↦ ground (arith, n)
  | inr (x, n) ↦
      let (same, active) = split_first-found (λ s. not s.standby) a.inputs x n in
      ground (arith, n, in_do_standby_l-returns locked a.output x.this a.hw active)
]

force_standby-returns :
    (a : Audio) → is_set (force_standby a) ≡ not (is_active a.output && has_echo a.inputs)
unfolding force_standby
force_standby-returns a = ground (
  arith,
  standby_active_input-returns (is_active a.output) (record a {
    output = (standby_output a.output a.hw).0;
    hw = (standby_output a.output a.hw).1;
  }),
)

-- Whether a call begins or ends, to which the streams go in standby.
abbrev pub moves : ℕ → Bool → Bool
moves mode in_call = ((mode == mode_in_call) && not in_call) || ((mode == mode_normal) && in_call)

-- The active output is locked, and the active input wants to give its echo reference back under that lock.
abbrev pub waits_for_itself : Audio → Bool
waits_for_itself a = is_active a.output && has_echo a.inputs

enter_call-returns : (w : World) (a : Audio) → is_set (enter_call w a) ≡ not (waits_for_itself a)
unfolding enter_call
enter_call-returns w a = ground (arith, force_standby-returns a)

leave_call-returns : (w : World) (a : Audio) → is_set (leave_call w a) ≡ not (waits_for_itself a)
unfolding leave_call
leave_call-returns w a =
    ground (arith, force_standby-returns (record a { hw = release_call w a.hw }))

to_call-returns :
    (w : World) (c : Bool) (a : Audio) → is_set (to_call w c a) ≡ (c || not (waits_for_itself a))
unfolding to_call
to_call-returns w true a = refl
to_call-returns w false a = enter_call-returns w a

to_normal-returns :
    (w : World) (c : Bool) (a : Audio)
    → is_set (to_normal w c a) ≡ (not c || not (waits_for_itself a))
unfolding to_normal
to_normal-returns w true a = leave_call-returns w a
to_normal-returns w false a = refl

-- setMode returns, on every branch, unless the mode is accepted, a call begins or ends with it, the output is
-- active, and the active input has an echo reference: then, and only then, it waits for the output's
-- mutex, which it holds.
pub set_mode-returns :
    (w : World) (mode : ℕ) (a : Audio)
    → is_set (set_mode w mode a).1
      ≡ not (
          is_no_error (w.base_status a.hw.mode mode)
          && (moves mode a.hw.in_call_audio_mode && waits_for_itself a))
unfolding set_mode change_mode
set_mode-returns w mode a =
    let h = record a.hw { mode = mode } in
    let a' = record a { hw = h } in
    ground (
      arith,
      to_call-returns w a.hw.in_call_audio_mode (record a { hw = activate_cp w h }),
      to_normal-returns w a.hw.in_call_audio_mode a',
    )
