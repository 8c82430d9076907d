-- ===== src/Audio/Client/Settings.antt =====
-- The settings of libaudio/AudioHardware.cpp: setVoiceVolume, setParameters of the three classes, and the
-- effects of an input. A String8 of parameters is what AudioParameter finds in it by key; `rest` is whether
-- keys are left that the method does not remove.
use android_device_samsung_a.Prelude.{
  ℕ, zero, suc, Bool, true, false, ◌&&◌, Option, none, some, List, [], ◌∷◌, ◌==◌, ltb,
  if◌then◌else◌,
}
use android_device_samsung_a.Prelude.Int.{ℤ, pos}
use android_device_samsung_a.Audio.Config.{bad_value}
use android_device_samsung_a.Audio.Routes.{
  TtyMode, tty_mode_off, tty_mode_vco, tty_mode_hco, tty_mode_full, mode_in_call,
}
use android_device_samsung_a.Audio.State.{World, Hw, OutStream, InStream, Audio, called}
use android_device_samsung_a.Audio.Card.{open_mixer_l, close_mixer_l}
use android_device_samsung_a.Audio.Streams.{out_do_standby_l, in_do_standby_l}
use android_device_samsung_a.Audio.Modem.{set_voice_volume_l, set_incall_path_l, set_input_source_l}
use android_device_samsung_a.Audio.Mode.{Split}
use android_device_samsung_a.Audio.Client.{at_output, at_input, replaced}

-- AudioHardware::setVoiceVolume
unfoldable pub set_voice_volume : World → ℕ → Audio → Audio
set_voice_volume w volume a = record a { hw = set_voice_volume_l w volume a.output a.hw }

-- `bt_headset_nrec` with whether it is "on".
abbrev pub with_nrec : Option Bool → Hw → Hw
with_nrec none h = h
with_nrec (some on) h = record h { bluetooth_nrec = on }

abbrev pub same_tty : TtyMode → TtyMode → Bool
same_tty tty_mode_off tty_mode_off = true
same_tty tty_mode_vco tty_mode_vco = true
same_tty tty_mode_hco tty_mode_hco = true
same_tty tty_mode_full tty_mode_full = true
same_tty _ _ = false

abbrev pub with_tty : World → TtyMode → Option OutStream → Hw → Hw
with_tty w m none h = record h { tty_mode = m }
with_tty w m (some s) h =
    let h' = record h { tty_mode = m } in
    if h.mode == mode_in_call then set_incall_path_l w s.devices h' else h'

-- AudioHardware::setParameters. `tty` is the value of tty_mode, `some none` one that is not known.
unfoldable pub set_parameters : World → Option Bool → Option (Option TtyMode) → Audio → ℤ × Audio
set_parameters w nrec tty a =
    let h = with_nrec nrec a.hw in
    elim tty [
      | none ↦ (pos 0, record a { hw = h })
      | some none ↦ (bad_value, record a { hw = h })
      | some (some m) ↦
          (pos 0, record a { hw = if same_tty m h.tty_mode then h else with_tty w m a.output h })
    ]

abbrev status_of : Bool → ℤ
status_of rest = if rest then bad_value else pos 0

-- The routing of the output to a device other than 0.
unfoldable pub route_output : World → ℕ → OutStream × Hw → OutStream × Hw
route_output w device (s, h) =
    let moved = record s { devices = device } in
    if h.mode == mode_in_call
    then (moved, set_incall_path_l w device h)
    else if s.devices == device
    then (s, h)
    else out_do_standby_l (moved, h)

-- AudioStreamOutALSA::setParameters
unfoldable pub out_set_parameters : World → Option ℕ → Bool → Audio → ℤ × Audio
out_set_parameters w none rest a = (status_of rest, a)
out_set_parameters w (some zero) rest a = (status_of rest, a)
out_set_parameters w (some (suc d)) rest a =
    (status_of rest, at_output (route_output w (suc d)) a.output a)

-- The input source, under an opening of the mixer of its own.
unfoldable pub choose_source : World → Option ℕ → Hw → Hw
choose_source w none h = h
choose_source w (some source) h =
    let (m, h1) = open_mixer_l w h in
    let (status, h2) = set_input_source_l w source h1 in close_mixer_l h2

unfoldable pub route_input :
    Option ℕ → Option OutStream → InStream → Hw → Option (Option OutStream × InStream × Hw)
route_input none out s h = some (out, s, h)
route_input (some zero) out s h = some (out, s, h)
route_input (some (suc d)) out s h =
    if s.devices == suc d
    then some (out, s, h)
    else if h.mode == mode_in_call
    then some (out, record s { devices = suc d }, h)
    else in_do_standby_l false out (record s { devices = suc d }) h

-- AudioStreamInALSA::setParameters, less its status, which is that of the output's.
unfoldable pub in_set_parameters : World → ℕ → Option ℕ → Option ℕ → Audio → Option Audio
in_set_parameters w id source routing a =
    at_input id
      (λ x. replaced x (route_input routing a.output x.this (choose_source w source a.hw))) a

-- `aec` is whether get_descriptor gives the type of an echo canceller; the standby comes before mLock.
unfoldable pub need_echo :
    World
    → Bool
    → Bool
    → Option OutStream
    → InStream
    → Hw
    → Option (Option OutStream × InStream × Hw)
need_echo w aec need out s h =
    if w.answer h.calls && aec
    then in_do_standby_l false out (record s { need_echo_reference = need }) (called h)
    else some (out, s, called h)

-- SortedVector::add: in order, and an effect that is there already is kept once.
unfoldable pub add_effect : ℕ → List ℕ → List ℕ
add_effect effect [] = effect ∷ []
add_effect effect (e ∷ es) =
    let rest = add_effect effect es in
    if ltb effect e then effect ∷ e ∷ es else if effect == e then e ∷ es else e ∷ rest

abbrev pub with_effect :
    ℕ → Option (Option OutStream × InStream × Hw) → Option (Option OutStream × InStream × Hw)
with_effect effect none = none
with_effect effect (some (out, s, h)) =
    some (out, record s { preprocessors = add_effect effect s.preprocessors }, h)

unfoldable pub add_audio_effect : World → ℕ → ℕ → Bool → Audio → Option Audio
add_audio_effect w id effect aec a =
    at_input id (λ x. replaced x (with_effect effect (need_echo w aec true a.output x.this a.hw))) a

-- The rest of the list behind the effect, or `none` where it is not there.
unfoldable pub without_effect : ℕ → List ℕ → Option (List ℕ)
without_effect effect [] = none
without_effect effect (e ∷ es) =
    let rest = without_effect effect es in
    if e == effect then some es else elim rest [ none ↦ none | some r ↦ some (e ∷ r) ]

unfoldable pub effect_removed : World → Bool → Audio → Split → Option (List ℕ) → Option Audio
effect_removed w aec a x none = some a
effect_removed w aec a x (some es) =
    replaced x (need_echo w aec false a.output (record x.this { preprocessors = es }) a.hw)

unfoldable pub remove_audio_effect : World → ℕ → ℕ → Bool → Audio → Option Audio
remove_audio_effect w id effect aec a =
    at_input id (λ x. effect_removed w aec a x (without_effect effect x.this.preprocessors)) a
