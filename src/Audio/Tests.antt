-- ===== src/Audio/Tests.antt =====
-- Concrete runs of libaudio/AudioHardware.cpp.
use android_device_samsung_a.Prelude.{
  ◌+◌, ◌≤◌, ◌<◌, ◌≡◌, ◌↔◌, refl, Bool, true, not, ◌&&◌, Option, none, some, ◌==◌, if◌then◌else◌,
  arith,
}
use android_device_samsung_a.Prelude.Int.{ℤ, pos, negsuc}
use android_device_samsung_a.Audio.Config.{
  Request, returned, in_set, pcm_16_bit, channel_in_mono, channel_count_of, get_input_sample_rate,
  closest_rate, rate_delta, get_input_buffer_size, out_set,
}
use android_device_samsung_a.Audio.Config.Rates.{
  is_input_rate, distance, get_input_sample_rate-nearest,
}
use android_device_samsung_a.Audio.Config.Accept.{
  asking, asking_again, in_set_lem, asking_again-accepted,
}
use android_device_samsung_a.Audio.State.{World, Audio, is_set}
use android_device_samsung_a.Audio.Routes.{mode_in_call, in_builtin_mic}
use android_device_samsung_a.Audio.Card.{
  open_pcm_out_l, open_mixer_l, close_pcm_out_l, close_mixer_l,
}
use android_device_samsung_a.Audio.Streams.{
  out_open_l, out_opened, out_open_route, out_do_standby_l, out_close_l, in_do_standby_l,
  in_close_l, in_open_l, in_open_route, leave_echo, get_echo_reference, release_echo_reference,
}
use android_device_samsung_a.Audio.Modem.{
  connect_rild_if_required, activate_cp, set_input_source_l, set_voice_volume_l,
}
use android_device_samsung_a.Audio.Mode.{
  split_first, get_active_input_l, standby_active_input, is_active, force_standby, hold_call,
  enter_call, to_call, change_mode, set_mode, is_no_error,
}
use android_device_samsung_a.Audio.Mode.Waits.{moves, waits_for_itself, set_mode-returns}
use android_device_samsung_a.Audio.Transfer.{
  open_around, pcm_written, write_opened, write_stream, write, read, read_stream, prepare_output,
  reopen_output, output_reopened, take_echo, read_opened, captured,
}
use android_device_samsung_a.Audio.Client.{
  open_input_stream, add_input, at_input, open_output_stream, close_output_stream, close_if,
  end_capture, destroy_output, load_rild, new_audio,
}
use android_device_samsung_a.Audio.Client.Settings.{need_echo, add_effect, add_audio_effect}
use android_device_samsung_a.Audio.Client.Echo.{close_output_stream-echo_reference}
use android_device_samsung_a.Audio.Sound.{to_nat}
use android_device_samsung_a.Audio.Sound.Inputs.{actives}
use android_device_samsung_a.Audio.Sound.Standby.{IsSound}
use android_device_samsung_a.Audio.Reach.{
  mode, output_opens, writes, Reach, start, after, Reach-IsSound, Reach-closed,
}

get_input_sample_rate-nearest_example :
    (is_input_rate (get_input_sample_rate 12000) ≡ true)
    × (distance 12000 (get_input_sample_rate 12000) ≤ distance 12000 16000)
get_input_sample_rate-nearest_example = get_input_sample_rate-nearest 12000 16000 (omega arith) refl

in_set_lem_example :
    (in_set (pos 0) (asking 1 12 16000) ≡ returned (pos 0) (asking 1 12 16000))
    ↔ (0 < get_input_buffer_size 16000 1 (channel_count_of 12))
in_set_lem_example = in_set_lem 1 12 16000 (omega arith) refl

asking_again-accepted_example :
    asking_again 3 (pos 0) (asking 2 3 48000)
    ≡ returned (pos 0) (asking pcm_16_bit channel_in_mono (get_input_sample_rate 48000))
asking_again-accepted_example = asking_again-accepted 2 3 48000

rate_48000 : get_input_sample_rate 48000 ≡ 44100
unfolding get_input_sample_rate closest_rate rate_delta
rate_48000 = refl

-- Everything answers; the capture device opens unless it is busy.
abbrev willing : World
willing = record {
  answer = λ n. true;
  capture = λ n busy. not busy;
  steps = λ v. pos v;
  base_status = λ old new. if old == new then negsuc 16 else pos 0;
}

abbrev any_request : Request
any_request = record { format = none; channels = none; rate = none }

abbrev opened : Audio
opened = (open_output_stream 7 1 any_request (new_audio willing 5)).1

abbrev written_to : Option (Bool × Audio) → Audio
written_to none = new_audio willing 5
written_to (some (ok, a)) = a

abbrev playing : Audio
playing = written_to (write willing opened)

abbrev moved_to : Option Audio → Audio
moved_to none = new_audio willing 5
moved_to (some a) = a

abbrev in_call : Audio
in_call = moved_to (set_mode willing mode_in_call playing).1

plays : write willing opened ≡ some (true, playing)
unfolding write write_stream open_around get_active_input_l split_first out_open_l out_opened
    out_open_route open_pcm_out_l open_mixer_l write_opened pcm_written open_output_stream out_set
    new_audio load_rild
plays = refl

calls : (set_mode willing mode_in_call playing).1 ≡ some in_call
unfolding write write_stream open_around get_active_input_l split_first out_open_l out_opened
    out_open_route open_pcm_out_l open_mixer_l write_opened pcm_written open_output_stream out_set
    new_audio load_rild set_mode change_mode to_call enter_call force_standby standby_active_input
    hold_call activate_cp connect_rild_if_required set_input_source_l set_voice_volume_l
calls = refl

reached : Reach willing 5 in_call
reached =
    after (after (after start (output_opens 7 1 any_request refl)) (writes true plays))
      (mode mode_in_call calls)

Reach-IsSound_example : IsSound in_call
Reach-IsSound_example = Reach-IsSound willing 5 in_call (λ n. refl) reached

Reach-closed_example :
    (in_call.hw.pcm_open_cnt ≤ 2)
    × (in_call.hw.mixer_open_cnt ≤ 3)
    × (to_nat (is_active in_call.output) ≤ to_nat (is_set in_call.hw.pcm))
    × (to_nat (is_set in_call.hw.pcm)
        ≤ to_nat in_call.hw.in_call_audio_mode + to_nat (is_active in_call.output))
    × (to_nat (is_set in_call.hw.mixer)
        ≤ to_nat in_call.hw.in_call_audio_mode
          + to_nat (is_active in_call.output)
          + actives in_call.inputs)
    × (in_call.hw.wake_lock ≡ is_active in_call.output)
Reach-closed_example = Reach-closed willing 5 in_call (λ n. refl) reached

set_mode-returns_example :
    is_set (set_mode willing mode_in_call playing).1
    ≡ not (
        is_no_error (willing.base_status playing.hw.mode mode_in_call)
        && (moves mode_in_call playing.hw.in_call_audio_mode && waits_for_itself playing))
set_mode-returns_example = set_mode-returns willing mode_in_call playing

closes : close_output_stream 7 opened ≡ some (moved_to (close_output_stream 7 opened))
unfolding close_output_stream close_if end_capture destroy_output open_output_stream out_set
    new_audio load_rild
closes = refl

close_output_stream-echo_reference_example :
    (moved_to (close_output_stream 7 opened)).hw.echo_reference ≡ opened.hw.echo_reference
close_output_stream-echo_reference_example =
    close_output_stream-echo_reference 7 opened (moved_to (close_output_stream 7 opened)) closes

abbrev joined_by : Option (ℤ × Audio) → Audio
joined_by none = new_audio willing 5
joined_by (some (status, a)) = a

-- An input with an echo canceller, which captures while the output plays.
abbrev talking : Audio
talking = written_to (
    read willing 9 (
      moved_to (
        add_audio_effect willing 9 3 true (
          joined_by
            (open_input_stream true (pos 0) 9 in_builtin_mic (asking 1 16 44100) playing)))))

-- The call does not begin: setMode waits for the output's mutex, which it holds.
call_waits : (set_mode willing mode_in_call talking).1 ≡ none
unfolding write write_stream open_around get_active_input_l split_first out_open_l out_opened
    out_open_route open_pcm_out_l open_mixer_l write_opened pcm_written open_output_stream out_set
    new_audio load_rild set_mode change_mode to_call enter_call force_standby standby_active_input
    hold_call activate_cp connect_rild_if_required set_input_source_l set_voice_volume_l
    open_input_stream in_set get_input_sample_rate closest_rate rate_delta add_input
    add_audio_effect at_input need_echo in_do_standby_l add_effect leave_echo in_close_l read
    read_stream prepare_output reopen_output output_reopened out_close_l take_echo
    get_echo_reference release_echo_reference read_opened captured in_open_l in_open_route
    close_mixer_l close_pcm_out_l out_do_standby_l
call_waits = refl
