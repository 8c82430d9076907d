-- ===== src/Audio/Client/Echo.antt =====
-- The echo reference of AudioHardware on closing the output (libaudio/AudioHardware.cpp).
use android_device_samsung_a.Prelude.{
  ℕ, ◌≡◌, Bool, true, false, inl, inr, Option, none, some, Option-cases, ◌==◌, arith,
}
use android_device_samsung_a.Audio.State.{Hw, OutStream, InStream, Audio}
use android_device_samsung_a.Audio.Card.{close_pcm_out_l, close_mixer_l}
use android_device_samsung_a.Audio.Streams.{
  out_close_l, out_do_standby_l, in_close_l, leave_echo, in_do_standby_l,
}
use android_device_samsung_a.Audio.Mode.{get_active_input_l, standby_active_input}
use android_device_samsung_a.Audio.Client.{
  destroy_output, end_capture, without_output, close_if, close_output_stream,
}

close_mixer_l-echo : (h : Hw) → (close_mixer_l h).echo_reference ≡ h.echo_reference
unfolding close_mixer_l
close_mixer_l-echo h = ground arith

close_pcm_out_l-echo : (h : Hw) → (close_pcm_out_l h).echo_reference ≡ h.echo_reference
unfolding close_pcm_out_l
close_pcm_out_l-echo h = ground arith

-- Without an output there is nothing to give the reference back to.
in_do_standby_l-echo :
    (locked : Bool) (s t : InStream) (h g : Hw) (o : Option OutStream)
    → in_do_standby_l locked none s h ≡ some (o, t, g)
    → g.echo_reference ≡ h.echo_reference
unfolding in_do_standby_l leave_echo in_close_l
in_do_standby_l-echo locked s t h g o e = ground (arith, close_mixer_l-echo h)

destroy_output-echo :
    (s : OutStream) (h : Hw) → (destroy_output s h).echo_reference ≡ h.echo_reference
unfolding destroy_output out_do_standby_l out_close_l
destroy_output-echo s h =
    let quiet = record h { wake_lock = false } in
    ground (
      arith,
      close_mixer_l-echo h,
      close_mixer_l-echo quiet,
      close_pcm_out_l-echo h,
      close_pcm_out_l-echo quiet,
      close_pcm_out_l-echo (close_mixer_l h),
      close_pcm_out_l-echo (close_mixer_l quiet),
    )

end_capture-echo :
    (a a' : Audio)
    → end_capture (without_output a) ≡ some a'
    → a'.hw.echo_reference ≡ a.hw.echo_reference
unfolding end_capture standby_active_input
end_capture-echo a a' e = elim (Option-cases (get_active_input_l a.inputs)) [
  | inl n ↦ ground (arith, n)
  | inr (x, n) ↦ elim (Option-cases (in_do_standby_l false none x.this a.hw)) [
    | inl m ↦ ground (arith, n, m)
    | inr ((o, t, g), m) ↦ ground (arith, n, m, in_do_standby_l-echo false x.this t a.hw g o m)
  ]
]

close_if-echo :
    (b : Bool) (s : OutStream) (a a' : Audio)
    → close_if b s a ≡ some a'
    → a'.hw.echo_reference ≡ a.hw.echo_reference
unfolding close_if
close_if-echo false s a a' e = ground arith
close_if-echo true s a a' e = elim (Option-cases (end_capture (without_output a))) [
  | inl n ↦ ground (arith, n)
  | inr (b, n) ↦ ground (arith, n, end_capture-echo a b n, destroy_output-echo s b.hw)
]

-- On every branch, closeOutputStream leaves the echo reference of AudioHardware as it is: where it puts
-- the active input in standby, mOutput is already cleared, and the reference is not released.
pub close_output_stream-echo_reference :
    (id : ℕ) (a a' : Audio)
    → close_output_stream id a ≡ some a'
    → a'.hw.echo_reference ≡ a.hw.echo_reference
unfolding close_output_stream
close_output_stream-echo_reference id a a' e = elim (Option-cases a.output) [
  | inl n ↦ ground (arith, n)
  | inr (s, n) ↦ close_if-echo (s.id == id) s a a' (ground (arith, n))
]
