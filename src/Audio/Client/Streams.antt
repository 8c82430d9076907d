-- ===== src/Audio/Client/Streams.antt =====
-- Opening and closing the streams of libaudio/AudioHardware.cpp keeps the invariant.
use android_device_samsung_a.Prelude.{
  ℕ, zero, suc, ◌+◌, ◌≤◌, ◌≡◌, refl, subst, Bool, true, false, inl, inr, Option, none, some,
  Option-cases, List, [], ◌∷◌, ◌++◌, ◌==◌, arith,
}
use android_device_samsung_a.Prelude.Int.{ℤ, pos, negsuc}
use android_device_samsung_a.Audio.Config.{Request, InSet, null_written, returned, out_set, in_set}
use android_device_samsung_a.Audio.State.{World, Hw, OutStream, InStream, Audio}
use android_device_samsung_a.Audio.Streams.{in_do_standby_l}
use android_device_samsung_a.Audio.Mode.{Split, split_first, put_back}
use android_device_samsung_a.Audio.Client.{
  is_id, new_output, new_input, added, joined, without_output, close_if, open_output_stream,
  destroy_output, end_capture, close_output_stream, add_input, open_input_stream,
  close_input_stream, load_rild, new_audio,
}
use android_device_samsung_a.Audio.Sound.{Slack, holds, IsCounted}
use android_device_samsung_a.Audio.Sound.Streams.{out_do_standby_l-IsCounted}
use android_device_samsung_a.Audio.Sound.Fields.{out_do_standby_l-fields}
use android_device_samsung_a.Audio.Sound.Inputs.{
  mixer_users, actives, AllSoundIn, split_first-found, mixer_users-append, actives-append,
  AllSoundIn-append, AllSoundIn-parts,
}
use android_device_samsung_a.Audio.Sound.Beside.{IsPlaced, to_beside, in_do_standby_l-IsFree}
use android_device_samsung_a.Audio.Sound.Standby.{
  IsSlack, IsSound, calm, settle, SameOutput, standby_active_input-IsCounted,
}

added-IsSound :
    (status : ℤ) (r : Request) (id devices : ℕ) (a : Audio)
    → a.output ≡ none
    → IsSound a
    → IsSound (added (status, r) (new_output id devices) a).1
added-IsSound (pos zero) r id devices a free so =
    settle a.hw.in_call_audio_mode (added (pos zero, r) (new_output id devices) a).1
      (ground (arith, free))
added-IsSound (pos (suc n)) r id devices a free so = so
added-IsSound (negsuc n) r id devices a free so = so

pub open_output_stream-IsSound :
    (id devices : ℕ) (r : Request) (a : Audio)
    → IsSound a
    → IsSound (open_output_stream id devices r a).1
unfolding open_output_stream
open_output_stream-IsSound id devices r a so = elim (Option-cases a.output) [
  | inl n ↦ ground (arith, n, added-IsSound (out_set r).0 (out_set r).1 id devices a n so)
  | inr (s, n) ↦ ground (arith, n)
]

end_capture-lem :
    (k : Slack) (s : OutStream) (a a' : Audio)
    → end_capture (without_output a) ≡ some a'
    → IsSlack k (record a { output = some s })
    → IsCounted k (holds s.pcm) (holds s.mixer + mixer_users a'.inputs) a'.hw
      × AllSoundIn a'.inputs
      × (actives a'.inputs ≤ 1)
      × SameOutput none a'.output
      × (a'.hw.wake_lock ≡ a.hw.wake_lock)
unfolding end_capture
end_capture-lem k s a a' e so = ground (
  arith,
  standby_active_input-IsCounted k false (holds s.pcm) (holds s.mixer) none a.hw a.inputs a',
)

-- The capture ends while the output still has its devices.
close_if-IsSound :
    (b : Bool) (s : OutStream) (a a' : Audio)
    → close_if b s a ≡ some a'
    → IsSound (record a { output = some s })
    → IsSound a
    → IsSound a'
unfolding close_if destroy_output
close_if-IsSound false s a a' e held so = ground arith
close_if-IsSound true s a a' e held so =
    let c = a.hw.in_call_audio_mode in
    elim (Option-cases (end_capture (without_output a))) [
      | inl n ↦ ground (arith, n)
      | inr (b, n) ↦
          let ended = end_capture-lem (calm c) s a b n held in
          settle c a' (
            ground (
              arith,
              n,
              ended,
              held.1,
              held.4,
              out_do_standby_l-IsCounted (calm c) 0 (mixer_users b.inputs) s b.hw,
              out_do_standby_l-fields s b.hw,
            ))
    ]

pub close_output_stream-IsSound :
    (id : ℕ) (a a' : Audio) → close_output_stream id a ≡ some a' → IsSound a → IsSound a'
unfolding close_output_stream
close_output_stream-IsSound id a a' e so = elim (Option-cases a.output) [
  | inl n ↦ ground (arith, n)
  | inr (s, n) ↦
      close_if-IsSound (s.id == id) s a a' (ground (arith, n))
        (subst (λ o. IsSound (record a { output = o })) n so) so
]

-- An input in standby counts nothing.
added-input :
    (s : InStream) (ss : List InStream)
    → (s.pcm ≡ none) × (s.mixer ≡ none) × (s.standby ≡ true)
    → AllSoundIn ss
    → AllSoundIn (add_input s ss)
      × (mixer_users (add_input s ss) ≡ mixer_users ss)
      × (actives (add_input s ss) ≡ actives ss)
unfolding add_input
added-input s [] new all = ground arith
added-input s (t ∷ ts) new all = ground (arith, added-input s ts new all.1)

joined-IsSound :
    (i : InSet) (id devices : ℕ) (a a' : Audio) (status : ℤ)
    → joined i (new_input id devices) a ≡ some (status, a')
    → IsSound a
    → IsSound a'
joined-IsSound null_written id devices a a' status e so = ground arith
joined-IsSound (returned (pos zero) r) id devices a a' status e so =
    settle a.hw.in_call_audio_mode a'
      (ground (arith, added-input (new_input id devices) a.inputs (refl, refl, refl) so.2))
joined-IsSound (returned (pos (suc n)) r) id devices a a' status e so = ground arith
joined-IsSound (returned (negsuc n) r) id devices a a' status e so = ground arith

pub open_input_stream-IsSound :
    (input_device : Bool) (resampler : ℤ) (id devices : ℕ) (r : Request) (a a' : Audio) (status : ℤ)
    → open_input_stream input_device resampler id devices r a ≡ some (status, a')
    → IsSound a
    → IsSound a'
unfolding open_input_stream
open_input_stream-IsSound input_device resampler id devices r a a' status e so =
    ground (arith, joined-IsSound (in_set resampler r) id devices a a' status)

dropped-IsSlack :
    (k : Slack) (x : Split) (o : Option OutStream) (t : InStream) (g : Hw)
    → AllSoundIn (put_back x x.this)
    → IsPlaced k x o t g
    → (holds t.mixer ≡ 0)
    → IsSlack k (record { hw = g; output = o; inputs = x.before ++ x.after })
dropped-IsSlack k x o t g all placed gone =
    let (hx, hy) = AllSoundIn-parts x.before (x.this ∷ x.after) all in
    ground (
      arith,
      AllSoundIn-append x.before x.after hx hy.1,
      mixer_users-append x.before x.after,
      actives-append x.before x.after,
    )

pub close_input_stream-IsSound :
    (id : ℕ) (a a' : Audio) → close_input_stream id a ≡ some a' → IsSound a → IsSound a'
unfolding close_input_stream
close_input_stream-IsSound id a a' e so =
    let c = a.hw.in_call_audio_mode in
    elim (Option-cases (split_first (is_id id) a.inputs)) [
      | inl n ↦ ground (arith, n)
      | inr (x, n) ↦
          let (all, placed) =
            to_beside (calm c) x a (split_first-found (is_id id) a.inputs x n).0 so in
          elim (Option-cases (in_do_standby_l false a.output x.this a.hw)) [
            | inl m ↦ ground (arith, n, m)
            | inr ((o, t, g), m) ↦
                let (free, gone) =
                  in_do_standby_l-IsFree (calm c) x false a.output o x.this t a.hw g m placed.0
                    (ground (arith, placed.2)) in
                settle c a' (ground (arith, n, m, dropped-IsSlack (calm c) x o t g all free gone))
          ]
    ]

pub new_audio-IsSound : (w : World) (one : ℕ) → IsSound (new_audio w one)
unfolding new_audio load_rild
new_audio-IsSound w one = ground arith
