-- ===== src/Audio/Streams.antt =====
-- open_l, close_l and doStandby_l of the two streams of libaudio/AudioHardware.cpp.
use android_device_samsung_a.Prelude.{
  ℕ, suc, Bool, true, false, Option, none, some, ◌==◌, if◌then◌else◌,
}
use android_device_samsung_a.Audio.Routes.{
  mode_in_call, get_output_route_from_device, get_input_route_from_device,
}
use android_device_samsung_a.Audio.State.{
  World, Hw, OutStream, InStream, playback_path, capture_mic_path, set_enum, called, send, is_set,
}
use android_device_samsung_a.Audio.Card.{
  open_pcm_out_l, close_pcm_out_l, open_mixer_l, close_mixer_l,
}

-- The stream's mutex is taken by the callers.
unfoldable pub out_close_l : OutStream × Hw → OutStream × Hw
out_close_l (s, h) =
    let h' = if is_set s.mixer then close_mixer_l h else h in
    let route_ctl' = if is_set s.mixer then false else s.route_ctl in
    let h'' = if is_set s.pcm then close_pcm_out_l h' else h' in
    (record s { mixer = none; pcm = none; route_ctl = route_ctl' }, h'')

-- Entering the standby: the echo reference is told, the wake lock released.
unfoldable pub out_do_standby_l : OutStream × Hw → OutStream × Hw
out_do_standby_l (s, h) =
    let h' = if s.standby then h else record h { wake_lock = false } in
    out_close_l (record s { standby_cnt = suc s.standby_cnt; standby = true }, h')

-- The mixer's part of open_l.
unfoldable pub out_open_route : World → Option ℕ × Hw → OutStream → OutStream × Hw
out_open_route w (mixer, h) s =
    let found = if is_set mixer then w.answer h.calls else s.route_ctl in
    let h' = if is_set mixer then called h else h in
    let s' = record s { mixer = mixer; route_ctl = found } in
    if h.mode == mode_in_call
    then (s', h')
    else if found
    then (s', send (set_enum playback_path (get_output_route_from_device h.mode s.devices)) h')
    else (s', h')

-- open_l behind the opening of the device: whether it returns NO_ERROR, and the state.
unfoldable pub out_opened : World → Option ℕ × Hw → OutStream → Bool × OutStream × Hw
out_opened w (none, h) s = (false, record s { pcm = none }, h)
out_opened w (some p, h) s =
    let (s', h') = out_open_route w (open_mixer_l w h) (record s { pcm = some p }) in (true, s', h')

unfoldable pub out_open_l : World → OutStream × Hw → Bool × OutStream × Hw
out_open_l w (s, h) = out_opened w (open_pcm_out_l w h) s

-- The buffers that it frees are those of the capture.
unfoldable pub in_close_l : InStream × Hw → InStream × Hw
in_close_l (s, h) =
    let h' = if is_set s.mixer then close_mixer_l h else h in
    let route_ctl' = if is_set s.mixer then false else s.route_ctl in
    (record s { mixer = none; pcm = none; route_ctl = route_ctl' }, h')

unfoldable pub in_open_route : World → Option ℕ × Hw → InStream → InStream × Hw
in_open_route w (mixer, h) s =
    let found = if is_set mixer then w.answer h.calls else s.route_ctl in
    let h' = if is_set mixer then called h else h in
    let s' = record s { mixer = mixer; route_ctl = found } in
    if h.mode == mode_in_call
    then (s', h')
    else if found
    then (
      s',
      send (set_enum capture_mic_path (get_input_route_from_device h.mic_mute s.devices)) h',
    )
    else (s', h')

-- `busy` is whether another stream has the capture device open.
unfoldable pub in_open_l : World → Bool → InStream × Hw → Bool × InStream × Hw
in_open_l w busy (s, h) =
    if w.capture h.calls busy
    then (let (s', h') =
          in_open_route w (open_mixer_l w (called h)) (record s { pcm = some h.calls }) in
        (true, s', h'))
    else (false, record s { pcm = none }, called h)

abbrev pub same_pointer : Option ℕ → Option ℕ → Bool
same_pointer none none = true
same_pointer (some a) (some b) = a == b
same_pointer _ _ = false

-- removeEchoReference of the output
abbrev pub remove_echo_reference : Option ℕ → OutStream → OutStream
remove_echo_reference reference s =
    if same_pointer s.echo_reference reference then record s { echo_reference = none } else s

abbrev pub add_echo_reference : Option ℕ → OutStream → OutStream
add_echo_reference reference s =
    if is_set s.echo_reference then s else record s { echo_reference = reference }

abbrev pub on_output : (OutStream → OutStream) → Option OutStream → Option OutStream
on_output f none = none
on_output f (some s) = some (f s)

unfoldable pub release_echo_reference : Option ℕ → Option OutStream × Hw → Option OutStream × Hw
release_echo_reference reference (out, h) =
    if is_set h.echo_reference
    then (if same_pointer reference h.echo_reference
        then (on_output (remove_echo_reference reference) out, record h { echo_reference = none })
        else (out, h))
    else (out, h)

unfoldable pub get_echo_reference : World → Option OutStream × Hw → Option OutStream × Hw
get_echo_reference w (out, h) =
    let (out', h') = release_echo_reference h.echo_reference (out, h) in
    elim out' [
      | none ↦ (none, h')
      | some s ↦
          if w.answer h'.calls
          then (
            some (add_echo_reference (some h'.calls) s),
            record (called h') { echo_reference = some h'.calls },
          )
          else (some s, called h')
    ]

-- The echo reference goes back under the mutex of the output, which the thread may hold already
-- (`locked`): then it waits for itself, `none`.
unfoldable pub leave_echo :
    Bool → Option OutStream → InStream → Hw → Option (Option OutStream × InStream × Hw)
leave_echo locked out s h = elim s.echo_reference [
  | none ↦ some (out, s, h)
  | some e ↦ elim out [
    | none ↦ some (none, record s { echo_reference = none }, h)
    | some o ↦
        if locked
        then none
        else (let (out', h') = release_echo_reference (some e) (some o, h) in
            some (out', record s { echo_reference = none }, h'))
  ]
]

unfoldable pub in_do_standby_l :
    Bool → Option OutStream → InStream → Hw → Option (Option OutStream × InStream × Hw)
in_do_standby_l locked out s h =
    let s' = record s { standby_cnt = suc s.standby_cnt } in
    if s.standby
    then (let (s'', h') = in_close_l (s', h) in some (out, s'', h'))
    else elim (leave_echo locked out s' h) [
      | none ↦ none
      | some (out', s'', h') ↦
          let (s3, h'') = in_close_l (record s'' { standby = true }, h') in some (out', s3, h'')
    ]
