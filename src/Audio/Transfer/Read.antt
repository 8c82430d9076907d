-- ===== src/Audio/Transfer/Read.antt =====
-- AudioStreamInALSA::read of libaudio/AudioHardware.cpp keeps the invariant.
use android_device_samsung_a.Prelude.{
  ℕ, ◌+◌, ◌≤◌, ◌≡◌, refl, sym, ap, subst, Bool, true, false, not, ◌==◌, Bool-cases, inl, inr,
  Option, none, some, Option-cases, List, [], ◌∷◌, if◌then◌else◌, arith,
}
use android_device_samsung_a.Audio.State.{World, Hw, OutStream, InStream, Audio, is_set, called}
use android_device_samsung_a.Audio.Streams.{
  out_open_l, out_close_l, in_open_l, in_do_standby_l, get_echo_reference, release_echo_reference,
}
use android_device_samsung_a.Audio.Mode.{Split, split_first, put_back}
use android_device_samsung_a.Audio.Transfer.{
  any_pcm, is_busy, output_reopened, reopen_output, take_echo, prepare_output, input_at, captured,
  read_opened, read_stream, read,
}
use android_device_samsung_a.Audio.Sound.{Slack, to_nat, holds, IsCounted}
use android_device_samsung_a.Audio.Sound.Streams.{
  IsSoundIn, out_open_l-IsCounted, out_close_l-IsCounted, out_do_standby_l-IsCounted,
  in_open_l-IsCounted,
}
use android_device_samsung_a.Audio.Sound.Fields.{
  out_open_l-fields, out_close_l-fields, out_do_standby_l-fields, in_open_l-fields,
}
use android_device_samsung_a.Audio.Sound.Inputs.{
  actives, AllSoundIn, split_first-found, put_back-this, AllSoundIn-parts,
}
use android_device_samsung_a.Audio.Sound.Beside.{
  IsBeside, others_mixer, others_active, put_back-IsSlack, in_do_standby_l-IsPlaced, to_beside,
}
use android_device_samsung_a.Audio.Sound.Standby.{
  out_pcm, out_mixer, IsSlack, IsSound, calm, settle,
}

module _ (k : Slack) (q : ℕ) (w : World) where
  output_reopened-IsBeside :
      (ok : Bool) (s : OutStream) (h : Hw)
      → IsCounted k (holds s.pcm) (holds s.mixer + q) h
      → (s.standby ≡ false)
        × (ok ≡ is_set s.pcm)
        × (h.wake_lock ≡ true)
        × (holds s.mixer ≤ holds s.pcm)
      → IsBeside k q (some (output_reopened (ok, s, h)).0) (output_reopened (ok, s, h)).1
  unfolding output_reopened
  output_reopened-IsBeside true s h ok opened = ground arith
  output_reopened-IsBeside false s h ok opened =
      ground (arith, out_do_standby_l-IsCounted k 0 q s h, out_do_standby_l-fields s h)

  reopen_output-IsBeside :
      (s : OutStream) (h : Hw)
      → IsBeside k q (some s) h
      → IsBeside k q (some (reopen_output w (s, h)).0) (reopen_output w (s, h)).1
  unfolding reopen_output
  reopen_output-IsBeside s h ok = elim (Bool-cases s.standby) [
    | inl b ↦ ground (arith, b)
    | inr b ↦
        let (t, h1) = out_close_l (s, h) in
        let (ok2, u, h2) = out_open_l w (t, h1) in
        let closed = out_close_l-fields s h in
        let closed' = out_close_l-IsCounted k 0 q s h (ground (arith, ok.0)) in
        let free : is_set t.mixer ≡ false = ground (arith, closed) in
        let opened = out_open_l-fields w t h1 free in
        let opened' = out_open_l-IsCounted k 0 q w t h1 free closed' in
        let again =
          output_reopened-IsBeside ok2 u h2 (ground (arith, opened'))
            (ground (arith, closed, opened, b)) in
        let active = output_reopened (out_open_l w (out_close_l (s, h))) in
        subst
          (λ c.
            IsBeside k q (some (if c then (s, h) else active).0) (if c then (s, h) else active).1)
          (sym b) again
  ]

  get_echo_reference-IsBeside :
      (o : Option OutStream) (h : Hw)
      → IsBeside k q o h
      → IsBeside k q (get_echo_reference w (o, h)).0 (get_echo_reference w (o, h)).1
  unfolding get_echo_reference release_echo_reference
  get_echo_reference-IsBeside o h ok = ground arith

  take_echo-IsBeside :
      (o : Option OutStream) (s : InStream) (h : Hw)
      → IsBeside k q o h
      → let (o', s', h') = take_echo w o s h in
        IsBeside k q o' h' × (s'.standby ≡ s.standby) × (s'.pcm ≡ s.pcm) × (s'.mixer ≡ s.mixer)
  unfolding take_echo
  take_echo-IsBeside o s h ok = ground (arith, get_echo_reference-IsBeside o h ok)

  prepare_output-IsBeside :
      (o : Option OutStream) (s : InStream) (h : Hw)
      → IsBeside k q o h
      → let (o', s', h') = prepare_output w o s h in
        IsBeside k q o' h' × (s'.standby ≡ s.standby) × (s'.pcm ≡ s.pcm) × (s'.mixer ≡ s.mixer)
  unfolding prepare_output
  prepare_output-IsBeside none s h ok = ground arith
  prepare_output-IsBeside (some o) s h ok =
      let (o', h') = reopen_output w (o, h) in
      take_echo-IsBeside (some o') s h' (reopen_output-IsBeside o h ok)

-- Of sound inputs none of which has the device, none is active.
idle : (ss : List InStream) → AllSoundIn ss → any_pcm ss ≡ false → actives ss ≡ 0
idle [] all none_open = refl
idle (s ∷ ss) all none_open = ground (arith, idle ss all.1)

module _ (k : Slack) (w : World) (x : Split) (all : AllSoundIn (put_back x x.this))
    (one : others_active x ≤ 1) where
  input_at_standby :
      (out : Option OutStream) (s : InStream) (h : Hw) (ok' ok : Bool) (a' : Audio)
      → input_at x ok' (in_do_standby_l false out s h) ≡ some (ok, a')
      → IsBeside k (holds s.mixer + others_mixer x) out h
      → IsSlack k a'
  input_at_standby out s h ok' ok a' e so = elim (Option-cases (in_do_standby_l false out s h)) [
    | inl n ↦ ground (arith, n)
    | inr ((o, t, g), n) ↦
        let placed = in_do_standby_l-IsPlaced k x false out o s t h g n so one in
        ground (arith, n, put_back-IsSlack k x o t g all placed)
  ]

  captured-IsSlack :
      (out : Option OutStream) (s : InStream) (h : Hw) (ok : Bool) (a' : Audio)
      → captured w x out s h ≡ some (ok, a')
      → IsBeside k (holds s.mixer + others_mixer x) out h
      → IsSoundIn s
      → to_nat (not s.standby) + others_active x ≤ 1
      → IsSlack k a'
  unfolding captured
  captured-IsSlack out s h ok a' e so si room = ground (
    arith,
    input_at_standby out s (called h) false ok a',
    put_back-IsSlack k x out s (called h) all (so, si, room),
  )

  read_opened-IsSlack :
      (out : Option OutStream) (ok : Bool) (s : InStream) (h : Hw) (ok' : Bool) (a' : Audio)
      → read_opened w x out (ok, s, h) ≡ some (ok', a')
      → IsBeside k (holds s.mixer + others_mixer x) out h
      → (ok ≡ is_set s.pcm) × (holds s.mixer ≤ holds s.pcm) × (to_nat ok + others_active x ≤ 1)
      → IsSlack k a'
  unfolding read_opened
  read_opened-IsSlack out true s h ok' a' e so opened =
      captured-IsSlack out (record s { standby = false }) h ok' a' e so (ground arith) opened.2
  read_opened-IsSlack out false s h ok' a' e so opened = input_at_standby out s h false ok' a' e so

-- pcm_open fails on a capture device that another stream has open.
abbrev pub IsExclusive : World → Type 0
IsExclusive w = (n : ℕ) → w.capture n true ≡ false

module _ (k : Slack) (w : World) (exclusive : IsExclusive w) (x : Split)
    (all : AllSoundIn (put_back x x.this)) where
  room : (n : ℕ) → others_active x ≤ 1 → to_nat (w.capture n (is_busy x)) + others_active x ≤ 1
  room n one =
      let (hx, hy) = AllSoundIn-parts x.before (x.this ∷ x.after) all in
      elim (Bool-cases (is_busy x)) [
        | inl b ↦ ground (arith, b, ap (w.capture n) b, exclusive n)
        | inr b ↦ ground (arith, b, idle x.before hx, idle x.after hy.1)
      ]

  opened-IsSlack :
      (o : Option OutStream) (s : InStream) (h : Hw) (ok : Bool) (a' : Audio)
      → read_opened w x o (in_open_l w (is_busy x) (s, h)) ≡ some (ok, a')
      → is_set s.mixer ≡ false
      → others_active x ≤ 1
      → IsBeside k (others_mixer x) o h
      → IsSlack k a'
  opened-IsSlack o s h ok a' e free few so =
      let opened = in_open_l-fields w (is_busy x) s h free in
      let counted =
        in_open_l-IsCounted k (out_pcm o) (out_mixer o + others_mixer x) w (is_busy x) s h free
          so.0 in
      let (ok2, t, g) = in_open_l w (is_busy x) (s, h) in
      read_opened-IsSlack k w x all few o ok2 t g ok a' e
        (ground (arith, counted, so.1, so.2, opened))
        (
          opened.1,
          opened.3,
          subst (λ c. to_nat c + others_active x ≤ 1) (sym opened.4) (room h.calls few),
        )

  read_stream-IsSlack :
      (a : Audio) (ok : Bool) (a' : Audio)
      → read_stream w x a ≡ some (ok, a')
      → to_nat (not x.this.standby) + others_active x ≤ 1
      → IsBeside k (holds x.this.mixer + others_mixer x) a.output a.hw
      → IsSlack k a'
  unfolding read_stream
  read_stream-IsSlack a ok a' e one so =
      let this = put_back-this x all in
      let few : others_active x ≤ 1 = omega (arith, one) in
      elim (Bool-cases x.this.standby) [
        | inr b ↦
            captured-IsSlack k w x all few a.output x.this a.hw ok a' (ground (arith, b)) so this
              one
        | inl b ↦
            let (o, s, h) = prepare_output w a.output x.this a.hw in
            let ready =
              prepare_output-IsBeside k (others_mixer x) w a.output x.this a.hw
                (ground (arith, so, this, b)) in
            opened-IsSlack o s h ok a' (ground (arith, b)) (ground (arith, ready, this, b)) few
              ready.0
      ]

-- `read` of a state that the invariant describes leaves one, where it returns, whether it captures or
-- fails. The capture device is one stream's at a time.
pub read-IsSound :
    (w : World) (id : ℕ) (a a' : Audio) (ok : Bool)
    → IsExclusive w
    → read w id a ≡ some (ok, a')
    → IsSound a
    → IsSound a'
unfolding read
read-IsSound w id a a' ok exclusive e so =
    let c = a.hw.in_call_audio_mode in
    elim (Option-cases (split_first (λ s. s.id == id) a.inputs)) [
      | inl n ↦ ground (arith, n)
      | inr (x, n) ↦
          let (same, _) = split_first-found (λ s. s.id == id) a.inputs x n in
          let (all, placed) = to_beside (calm c) x a same so in
          settle c a' (
            read_stream-IsSlack (calm c) w exclusive x all a ok a' (ground (arith, n)) placed.2
              placed.0)
    ]
