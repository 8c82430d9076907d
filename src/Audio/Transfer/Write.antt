-- ===== src/Audio/Transfer/Write.antt =====
-- AudioStreamOutALSA::write of libaudio/AudioHardware.cpp keeps the invariant.
use android_device_samsung_a.Prelude.{
  ◌+◌, ◌≤◌, ◌≡◌, subst, Bool, true, false, not, inl, inr, some, Option-cases, List, arith,
}
use android_device_samsung_a.Audio.State.{World, Hw, OutStream, InStream, Audio, is_set, called}
use android_device_samsung_a.Audio.Streams.{out_open_l, in_close_l, in_open_l, in_do_standby_l}
use android_device_samsung_a.Audio.Mode.{Split, get_active_input_l, put_back, is_active}
use android_device_samsung_a.Audio.Transfer.{
  is_busy, output_at, reopen_failed, open_around, pcm_written, write_opened, write_stream, write,
}
use android_device_samsung_a.Audio.Sound.{Slack, holds, IsCounted}
use android_device_samsung_a.Audio.Sound.Streams.{
  out_open_l-IsCounted, out_do_standby_l-IsCounted, in_close_l-IsCounted, in_open_l-IsCounted,
}
use android_device_samsung_a.Audio.Sound.Fields.{
  out_open_l-fields, out_do_standby_l-fields, in_close_l-fields, in_open_l-fields,
}
use android_device_samsung_a.Audio.Sound.Inputs.{
  mixer_users, actives, AllSoundIn, split_first-found, put_back-active, put_back-this,
}
use android_device_samsung_a.Audio.Sound.Standby.{
  IsSlack, IsSound, calm, settle, in_do_standby_l-IsCounted,
}

-- The inputs are sound, and one at most is active.
abbrev AreSound : List InStream → Type 0
AreSound ss = AllSoundIn ss × (actives ss ≤ 1)

-- An output that is about to leave the standby.
abbrev IsOpening : Slack → OutStream → List InStream → Hw → Type 0
IsOpening k s ss h =
    IsCounted k (holds s.pcm) (holds s.mixer + mixer_users ss) h
    × AreSound ss
    × (s.standby ≡ true)
    × (holds s.mixer ≤ holds s.pcm)
    × (h.wake_lock ≡ true)

module _ (k : Slack) (x : Split) (active : not x.this.standby ≡ true)
    (all : AllSoundIn (put_back x x.this)) (one : actives (put_back x x.this) ≤ 1) where
  reopen_failed-IsOpening :
      (ok : Bool) (t : InStream) (s : OutStream) (h : Hw) (s' : OutStream) (ss' : List InStream)
      (h' : Hw)
      → reopen_failed x (ok, t, h) s ≡ some (s', ss', h')
      → IsCounted k (holds s.pcm) (holds t.mixer + holds s.mixer) h
      → (s.standby ≡ true)
        × (holds s.mixer ≤ holds s.pcm)
        × (h.wake_lock ≡ true)
        × (t.standby ≡ false)
        × (ok ≡ is_set t.pcm)
        × (holds t.mixer ≤ holds t.pcm)
      → IsOpening k s' ss' h'
  unfolding reopen_failed
  reopen_failed-IsOpening true t s h s' ss' h' e ok reopened =
      ground (arith, put_back-active x t active all one)
  reopen_failed-IsOpening false t s h s' ss' h' e ok reopened =
      elim (Option-cases (in_do_standby_l true (some s) t h)) [
        | inl n ↦ ground (arith, n)
        | inr ((o, u, g), n) ↦
            let done =
              in_do_standby_l-IsCounted k (holds s.pcm) (holds s.mixer) true (some s) o t u h g n
                ok in
            ground (arith, n, done, put_back-active x u active all one)
      ]

module _ (k : Slack) (w : World) (s : OutStream) (h : Hw) (st : s.standby ≡ true)
    (free : is_set s.mixer ≡ false) (wl : h.wake_lock ≡ true) where
  open_alone-IsOpening :
      (ss : List InStream)
      → AreSound ss
      → IsCounted k 0 (mixer_users ss) h
      → IsOpening k (out_open_l w (s, h)).1 ss (out_open_l w (s, h)).2
  open_alone-IsOpening ss so ok =
      let fields = out_open_l-fields w s h free in
      let counted = out_open_l-IsCounted k 0 (mixer_users ss) w s h free ok in
      ground (arith, fields, counted)

  open_both-IsOpening :
      (x : Split)
      → not x.this.standby ≡ true
      → AreSound (put_back x x.this)
      → IsCounted k 0 (mixer_users (put_back x x.this)) h
      → (s' : OutStream) (ss' : List InStream) (h' : Hw)
      → open_around w (put_back x x.this) (some x) s h ≡ some (s', ss', h')
      → IsOpening k s' ss' h'
  unfolding open_around
  open_both-IsOpening x active (all, one) ok s' ss' h' e =
      let users = put_back-active x x.this active all one (put_back-this x all) in
      let (t, h1) = in_close_l (x.this, h) in
      let (ok2, s2, h2) = out_open_l w (s, h1) in
      let (ok3, t3, h3) = in_open_l w (is_busy x) (t, h2) in
      let closed = in_close_l-fields x.this h in
      let closed' = in_close_l-IsCounted k 0 0 x.this h (ground (arith, users)) in
      let opened = out_open_l-fields w s h1 free in
      let opened' = out_open_l-IsCounted k 0 0 w s h1 free closed' in
      let empty : is_set t.mixer ≡ false = ground (arith, closed) in
      let again = in_open_l-fields w (is_busy x) t h2 empty in
      let again' =
        in_open_l-IsCounted k (holds s2.pcm) (holds s2.mixer) w (is_busy x) t h2 empty
          (ground (arith, opened')) in
      reopen_failed-IsOpening k x active all one ok3 t3 s2 h3 s' ss' h' e again'
        (ground (arith, again, opened, closed))

module _ (k : Slack) (w : World) (s : OutStream) (ss : List InStream) (h : Hw) where
  pcm_written-IsSlack : IsSlack k (output_at (s, h) ss) → IsSlack k (pcm_written w s ss h).1
  unfolding pcm_written
  pcm_written-IsSlack ok = ground (
    arith,
    out_do_standby_l-IsCounted k 0 (mixer_users ss) s (called h),
    out_do_standby_l-fields s (called h),
  )

module _ (k : Slack) (w : World) (s : OutStream) (ss : List InStream) (h : Hw) where
  write_opened-IsSlack : IsOpening k s ss h → IsSlack k (write_opened w s ss h).1
  unfolding write_opened
  write_opened-IsSlack ok =
      let quiet = record h { wake_lock = false } in
      ground (
        arith,
        out_do_standby_l-IsCounted k 0 (mixer_users ss) s quiet,
        out_do_standby_l-fields s quiet,
        pcm_written-IsSlack k w (record s { standby = false }) ss h,
      )

module _ (k : Slack) (w : World) (s : OutStream) (h : Hw) (ss : List InStream) where
  open_around-IsOpening :
      (s' : OutStream) (ss' : List InStream) (h' : Hw)
      → open_around w ss (get_active_input_l ss) s h ≡ some (s', ss', h')
      → (s.standby ≡ true)
      → (is_set s.mixer ≡ false)
      → (h.wake_lock ≡ true)
      → AreSound ss
      → IsCounted k 0 (mixer_users ss) h
      → IsOpening k s' ss' h'
  unfolding open_around get_active_input_l
  open_around-IsOpening s' ss' h' e st free wl so ok = elim (Option-cases (get_active_input_l ss)) [
    | inl n ↦ ground (arith, n, open_alone-IsOpening k w s h st free wl ss so ok)
    | inr (x, n) ↦
        let (same, active) = split_first-found (λ t. not t.standby) ss x n in
        open_both-IsOpening k w s h st free wl x active (subst AreSound same so)
          (subst (λ r. IsCounted k 0 (mixer_users r) h) same ok) s' ss' h' (ground (arith, n))
  ]

module _ (k : Slack) (w : World) (s : OutStream) (h : Hw) (ss : List InStream) where
  write_stream-IsSlack :
      (ok : Bool) (a' : Audio)
      → write_stream w s ss h ≡ some (ok, a')
      → IsSlack k (output_at (s, h) ss)
      → IsSlack k a'
  unfolding write_stream
  write_stream-IsSlack ok a' e so =
      let g = record h { wake_lock = true } in
      elim (Option-cases (open_around w ss (get_active_input_l ss) s g)) [
        | inl n ↦ ground (arith, n, pcm_written-IsSlack k w s ss h)
        | inr ((s1, ss1, h1), n) ↦ ground (
          arith,
          n,
          pcm_written-IsSlack k w s ss h,
          write_opened-IsSlack k w s1 ss1 h1,
          open_around-IsOpening k w s g ss s1 ss1 h1 n,
        )
      ]

pcm_written-active :
    (w : World) (s : OutStream) (ss : List InStream) (h : Hw)
    → s.standby ≡ false
    → is_active (pcm_written w s ss h).1.output ≡ (pcm_written w s ss h).0
unfolding pcm_written
pcm_written-active w s ss h st = ground (arith, out_do_standby_l-fields s (called h))

write_opened-active :
    (w : World) (s : OutStream) (ss : List InStream) (h : Hw)
    → is_active (write_opened w s ss h).1.output ≡ (write_opened w s ss h).0
unfolding write_opened
write_opened-active w s ss h = ground (
  arith,
  out_do_standby_l-fields s (record h { wake_lock = false }),
  pcm_written-active w (record s { standby = false }) ss h,
)

write_stream-active :
    (w : World) (s : OutStream) (ss : List InStream) (h : Hw) (ok : Bool) (a' : Audio)
    → write_stream w s ss h ≡ some (ok, a')
    → is_active a'.output ≡ ok
unfolding write_stream
write_stream-active w s ss h ok a' e =
    elim (Option-cases
      (open_around w ss (get_active_input_l ss) s (record h { wake_lock = true }))) [
        | inl n ↦ ground (arith, n, pcm_written-active w s ss h)
        | inr ((s', ss', h'), n) ↦
            ground (arith, n, pcm_written-active w s ss h, write_opened-active w s' ss' h')
      ]

-- `write` of a state that the invariant describes leaves one, where it returns, whether the bytes are taken
-- or not.
pub write-IsSound :
    (w : World) (a a' : Audio) (ok : Bool) → write w a ≡ some (ok, a') → IsSound a → IsSound a'
unfolding write
write-IsSound w a a' ok e so =
    let c = a.hw.in_call_audio_mode in
    elim (Option-cases a.output) [
      | inl n ↦ ground (arith, n)
      | inr (s, n) ↦ settle c a' (
          write_stream-IsSlack (calm c) w s a.hw a.inputs ok a' (ground (arith, n))
            (ground (arith, n)))
    ]

-- Where `write` of an open output returns, the output is active exactly if the bytes were taken: with an
-- error it is in standby.
pub write-active :
    (w : World) (a a' : Audio) (s : OutStream) (ok : Bool)
    → a.output ≡ some s
    → write w a ≡ some (ok, a')
    → is_active a'.output ≡ ok
unfolding write
write-active w a a' s ok has e = write_stream-active w s a.inputs a.hw ok a' (ground (arith, has))
