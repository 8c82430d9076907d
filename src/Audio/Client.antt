-- ===== src/Audio/Client.antt =====
-- The rest of the interface of libaudio/AudioHardware.cpp: opening, closing and standby of streams and the
-- constructor; Client.Settings has the parameters, the volume and the effects.
pub mod Settings
pub mod Invariant
pub mod Inputs
pub mod Streams
pub mod Echo
use android_device_samsung_a.Prelude.{
  ℕ, zero, suc, Bool, true, false, not, ◌&&◌, ◌||◌, Option, none, some, List, [], ◌∷◌, ◌++◌, ◌==◌,
  ltb, if◌then◌else◌,
}
use android_device_samsung_a.Prelude.Int.{ℤ, pos, negsuc}
use android_device_samsung_a.Audio.Config.{
  bad_value, Request, InSet, null_written, returned, out_set, in_set,
}
use android_device_samsung_a.Audio.Routes.{
  TtyMode, tty_mode_off, tty_mode_vco, tty_mode_hco, tty_mode_full, mode_normal, mode_in_call,
}
use android_device_samsung_a.Audio.State.{World, Hw, OutStream, InStream, Audio, is_set, called}
use android_device_samsung_a.Audio.Card.{open_mixer_l, close_mixer_l}
use android_device_samsung_a.Audio.Streams.{out_do_standby_l, in_do_standby_l}
use android_device_samsung_a.Audio.Modem.{set_voice_volume_l, set_incall_path_l, set_input_source_l}
use android_device_samsung_a.Audio.Mode.{Split, split_first, standby_active_input, put_back}

-- -ENOSYS, the value of INVALID_OPERATION.
abbrev invalid_operation : ℤ
invalid_operation = negsuc 37

abbrev pub is_id : ℕ → InStream → Bool
is_id id s = s.id == id

-- new AudioStreamOutALSA, with the devices of `set`.
abbrev pub new_output : ℕ → ℕ → OutStream
new_output id devices = record {
  id = id;
  pcm = none;
  mixer = none;
  route_ctl = false;
  standby = true;
  devices = devices;
  standby_cnt = 0;
  echo_reference = none;
}

abbrev pub new_input : ℕ → ℕ → InStream
new_input id devices = record {
  id = id;
  pcm = none;
  mixer = none;
  route_ctl = false;
  standby = true;
  devices = devices;
  standby_cnt = 0;
  echo_reference = none;
  need_echo_reference = false;
  preprocessors = [];
}

abbrev pub added : (ℤ × Request) → OutStream → Audio → ℤ × Audio
added (pos zero, r) s a = (pos 0, record a { output = some s })
added (status, r) s a = (status, a)

-- The status; `id` is the pointer of the new stream.
unfoldable pub open_output_stream : ℕ → ℕ → Request → Audio → ℤ × Audio
open_output_stream id devices r a = elim a.output [
  | some o ↦ (invalid_operation, a)
  | none ↦ added (out_set r) (new_output id devices) a
]

-- AudioStreamOutALSA::standby, which the destructor calls too: of the stream that is no more mOutput.
unfoldable pub destroy_output : OutStream → Hw → Hw
destroy_output s h = (out_do_standby_l (s, h)).1

-- An operation on mOutput.
abbrev pub at_output : (OutStream × Hw → OutStream × Hw) → Option OutStream → Audio → Audio
at_output f none a = a
at_output f (some s) a = let (s', h) = f (s, a.hw) in record a { hw = h; output = some s' }

unfoldable pub out_standby : Audio → Audio
out_standby a = at_output out_do_standby_l a.output a

abbrev pub without_output : Audio → Audio
without_output a = record a { output = none }

-- An input in standby behind the end of the output, if there is an echo reference.
unfoldable pub end_capture : Audio → Option Audio
end_capture a = if is_set a.hw.echo_reference then standby_active_input false a else some a

-- Behind the end of the capture, the output is destroyed.
abbrev pub then_destroy : OutStream → Option Audio → Option Audio
then_destroy s none = none
then_destroy s (some a) = some (record a { hw = destroy_output s a.hw })

unfoldable pub close_if : Bool → OutStream → Audio → Option Audio
close_if false s a = some a
close_if true s a = then_destroy s (end_capture (without_output a))

unfoldable pub close_output_stream : ℕ → Audio → Option Audio
close_output_stream id a = elim a.output [ none ↦ some a | some s ↦ close_if (s.id == id) s a ]

-- SortedVector::add keeps mInputs in the order of the pointers.
unfoldable pub add_input : InStream → List InStream → List InStream
add_input s [] = s ∷ []
add_input s (t ∷ ts) = let rest = add_input s ts in if ltb s.id t.id then s ∷ t ∷ ts else t ∷ rest

abbrev pub joined : InSet → InStream → Audio → Option (ℤ × Audio)
joined null_written s a = none
joined (returned (pos zero) r) s a = some (pos 0, record a { inputs = add_input s a.inputs })
joined (returned status r) s a = some (status, a)

-- `input_device` is AudioSystem::isInputDevice, `none` the write through a NULL pointer.
unfoldable pub open_input_stream : Bool → ℤ → ℕ → ℕ → Request → Audio → Option (ℤ × Audio)
open_input_stream input_device resampler id devices r a =
    if input_device
    then joined (in_set resampler r) (new_input id devices) a
    else some (bad_value, a)

-- The destructor's standby, of a stream that is no more in mInputs.
abbrev pub dropped : Split → Option (Option OutStream × InStream × Hw) → Option Audio
dropped x none = none
dropped x (some (out, s, h)) = some (record { hw = h; output = out; inputs = x.before ++ x.after })

unfoldable pub close_input_stream : ℕ → Audio → Option Audio
close_input_stream id a = elim (split_first (is_id id) a.inputs) [
  | none ↦ some a
  | some x ↦ dropped x (in_do_standby_l false a.output x.this a.hw)
]

abbrev pub replaced : Split → Option (Option OutStream × InStream × Hw) → Option Audio
replaced x none = none
replaced x (some (out, s, h)) = some (record { hw = h; output = out; inputs = put_back x s })

-- An operation on the input with that pointer.
unfoldable pub at_input : ℕ → (Split → Option Audio) → Audio → Option Audio
at_input id f a = elim (split_first (is_id id) a.inputs) [ none ↦ some a | some x ↦ f x ]

-- AudioStreamInALSA::standby
unfoldable pub in_standby : ℕ → Audio → Option Audio
in_standby id a = at_input id (λ x. replaced x (in_do_standby_l false a.output x.this a.hw)) a

-- loadRILD: the library, its functions, and a client.
unfoldable pub load_rild : World → Hw → Hw
load_rild w h =
    let functions = w.answer (suc h.calls) in
    let client = w.answer (suc (suc h.calls)) in
    if w.answer h.calls
    then (if functions
        then record h { ril_client = client; calls = suc (suc (suc h.calls)) }
        else record h { ril_client = false; calls = suc (suc h.calls) })
    else record h { ril_client = false; calls = suc h.calls }

-- The constructor; `one` are the bits of 1.0f, and AudioHardwareBase starts with MODE_NORMAL.
unfoldable pub new_audio : World → ℕ → Audio
new_audio w one = record {
  hw = load_rild w (record {
    mode = mode_normal;
    mic_mute = false;
    pcm = none;
    pcm_open_cnt = 0;
    mixer = none;
    mixer_open_cnt = 0;
    in_call_audio_mode = false;
    voice_vol = one;
    source = 0;
    bluetooth_nrec = true;
    tty_mode = tty_mode_off;
    ril_client = false;
    activated_cp = false;
    echo_reference = none;
    calls = 0;
    sent = [];
    wake_lock = false;
  });
  output = none;
  inputs = [];
}
