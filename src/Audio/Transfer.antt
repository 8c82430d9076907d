-- ===== src/Audio/Transfer.antt =====
-- The `write` and the `read` of the streams of libaudio/AudioHardware.cpp, as far as the state of
-- `AudioHardware` goes.
pub mod Write
pub mod Read
use android_device_samsung_a.Prelude.{
  ℕ, Bool, true, false, not, ◌&&◌, ◌||◌, Option, none, some, List, [], ◌∷◌, ◌++◌, ◌==◌,
  if◌then◌else◌,
}
use android_device_samsung_a.Audio.State.{World, Hw, OutStream, InStream, Audio, is_set, called}
use android_device_samsung_a.Audio.Streams.{
  out_close_l, out_open_l, out_do_standby_l, in_close_l, in_open_l, in_do_standby_l,
  get_echo_reference,
}
use android_device_samsung_a.Audio.Mode.{Split, split_first, get_active_input_l, put_back}

-- Whether one of them has the capture device open.
abbrev pub any_pcm : List InStream → Bool
any_pcm [] = false
any_pcm (s ∷ ss) = is_set s.pcm || any_pcm ss

abbrev pub is_busy : Split → Bool
is_busy x = any_pcm x.before || any_pcm x.after

-- The active input is closed, the output opened, then the input opened again, or put in standby: `none` where
-- that waits for the output's mutex, which `write` holds.
unfoldable pub reopen_failed :
    Split → Bool × InStream × Hw → OutStream → Option (OutStream × List InStream × Hw)
reopen_failed x (true, t, h) s = some (s, put_back x t, h)
reopen_failed x (false, t, h) s = elim (in_do_standby_l true (some s) t h) [
  | none ↦ none
  | some (out, t', h') ↦ some (s, put_back x t', h')
]

unfoldable pub open_around :
    World → List InStream → Option Split → OutStream → Hw → Option (OutStream × List InStream × Hw)
open_around w ss none s h = let (ok, s', h') = out_open_l w (s, h) in some (s', ss, h')
open_around w ss (some x) s h =
    let (t, h1) = in_close_l (x.this, h) in
    let (ok, s', h2) = out_open_l w (s, h1) in reopen_failed x (in_open_l w (is_busy x) (t, h2)) s'

abbrev pub output_at : OutStream × Hw → List InStream → Audio
output_at (s, h) ss = record { hw = h; output = some s; inputs = ss }

-- pcm_write, and the standby where it fails: whether the bytes were taken, and the state.
unfoldable pub pcm_written : World → OutStream → List InStream → Hw → Bool × Audio
pcm_written w s ss h =
    if w.answer h.calls
    then (true, output_at (s, called h) ss)
    else (false, output_at (out_do_standby_l (s, called h)) ss)

unfoldable pub write_opened : World → OutStream → List InStream → Hw → Bool × Audio
write_opened w s ss h =
    if is_set s.pcm
    then pcm_written w (record s { standby = false }) ss h
    else (false, output_at (out_do_standby_l (s, record h { wake_lock = false })) ss)

unfoldable pub write_stream : World → OutStream → List InStream → Hw → Option (Bool × Audio)
write_stream w s ss h =
    if s.standby
    then elim (open_around w ss (get_active_input_l ss) s (record h { wake_lock = true })) [
      | none ↦ none
      | some (s', ss', h') ↦ some (write_opened w s' ss' h')
    ]
    else some (pcm_written w s ss h)

-- AudioStreamOutALSA::write of the stream that is mOutput.
unfoldable pub write : World → Audio → Option (Bool × Audio)
write w a = elim a.output [ none ↦ some (false, a) | some s ↦ write_stream w s a.inputs a.hw ]

-- An active output is closed and opened again, or put in standby.
unfoldable pub output_reopened : Bool × OutStream × Hw → OutStream × Hw
output_reopened (true, s, h) = (s, h)
output_reopened (false, s, h) = out_do_standby_l (s, h)

unfoldable pub reopen_output : World → OutStream × Hw → OutStream × Hw
reopen_output w (s, h) =
    if s.standby then (s, h) else output_reopened (out_open_l w (out_close_l (s, h)))

unfoldable pub take_echo :
    World → Option OutStream → InStream → Hw → Option OutStream × InStream × Hw
take_echo w out s h =
    if s.need_echo_reference && not (is_set s.echo_reference)
    then (let (out', h') = get_echo_reference w (out, h) in
        (out', record s { echo_reference = h'.echo_reference }, h'))
    else (out, s, h)

-- What `read` does of the output before it opens the input.
unfoldable pub prepare_output :
    World → Option OutStream → InStream → Hw → Option OutStream × InStream × Hw
prepare_output w none s h = (none, s, h)
prepare_output w (some o) s h = let (o', h') = reopen_output w (o, h) in take_echo w (some o') s h'

abbrev pub input_at :
    Split → Bool → Option (Option OutStream × InStream × Hw) → Option (Bool × Audio)
input_at x ok none = none
input_at x ok (some (out, s, h)) = some (ok, record { hw = h; output = out; inputs = put_back x s })

-- readFrames or processFrames, and the standby where it fails.
unfoldable pub captured : World → Split → Option OutStream → InStream → Hw → Option (Bool × Audio)
captured w x out s h =
    if w.answer h.calls
    then input_at x true (some (out, s, called h))
    else input_at x false (in_do_standby_l false out s (called h))

unfoldable pub read_opened :
    World → Split → Option OutStream → Bool × InStream × Hw → Option (Bool × Audio)
read_opened w x out (true, s, h) = captured w x out (record s { standby = false }) h
read_opened w x out (false, s, h) = input_at x false (in_do_standby_l false out s h)

unfoldable pub read_stream : World → Split → Audio → Option (Bool × Audio)
read_stream w x a =
    if x.this.standby
    then (let (out, s, h) = prepare_output w a.output x.this a.hw in
        read_opened w x out (in_open_l w (is_busy x) (s, h)))
    else captured w x a.output x.this a.hw

-- AudioStreamInALSA::read of the stream with that pointer.
unfoldable pub read : World → ℕ → Audio → Option (Bool × Audio)
read w id a = elim (split_first (λ s. s.id == id) a.inputs) [
  | none ↦ some (false, a)
  | some x ↦ read_stream w x a
]
