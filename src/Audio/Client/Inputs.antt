-- ===== src/Audio/Client/Inputs.antt =====
-- The settings of one input (libaudio/AudioHardware.cpp) keep the invariant.
use android_device_samsung_a.Prelude.{
  ℕ, zero, suc, ◌+◌, ◌≡◌, ◌∙◌, refl, sym, ap, Bool, true, false, inl, inr, Option, none, some,
  Option-cases, List, ltb, arith,
}
use android_device_samsung_a.Audio.State.{World, Hw, OutStream, InStream, Audio, is_set, called}
use android_device_samsung_a.Audio.Card.{open_mixer_l, close_mixer_l}
use android_device_samsung_a.Audio.Modem.{set_input_source_l}
use android_device_samsung_a.Audio.Mode.{Split, put_back}
use android_device_samsung_a.Audio.Client.{replaced}
use android_device_samsung_a.Audio.Client.Settings.{
  choose_source, route_input, in_set_parameters, need_echo, with_effect, add_audio_effect,
  without_effect, effect_removed, remove_audio_effect,
}
use android_device_samsung_a.Audio.Sound.{Slack, holds, IsCounted, open_mixer_l-IsCounted}
use android_device_samsung_a.Audio.Sound.Modem.{set_input_source_l-IsCounted}
use android_device_samsung_a.Audio.Sound.Fields.{open_mixer_l-wake_lock}
use android_device_samsung_a.Audio.Sound.Inputs.{AllSoundIn}
use android_device_samsung_a.Audio.Sound.Beside.{IsPlaced, others_mixer, in_do_standby_l-IsPlaced}
use android_device_samsung_a.Audio.Sound.Standby.{
  out_pcm, out_mixer, IsSlack, IsSound, calm, settle,
}
use android_device_samsung_a.Audio.Client.Invariant.{
  at_input-IsSlack, replaced-IsSlack, set_input_source_l-wake_lock,
}

close_mixer_l-wake_lock : (h : Hw) → (close_mixer_l h).wake_lock ≡ h.wake_lock
unfolding close_mixer_l
close_mixer_l-wake_lock h = ground arith

-- The mixer is open for the choice of the source; where its opening fails, nothing is closed.
module _ (k : Slack) (p q : ℕ) (w : World) where
  open_mixer_l-open :
      (h : Hw)
      → IsCounted k p q h
      → is_set (open_mixer_l w h).0 ≡ ltb 0 (open_mixer_l w h).1.mixer_open_cnt
  unfolding open_mixer_l
  open_mixer_l-open h ok = ground arith

  set_input_source_l-mixer_open_cnt :
      (source : ℕ) (h : Hw) → (set_input_source_l w source h).1.mixer_open_cnt ≡ h.mixer_open_cnt
  unfolding set_input_source_l
  set_input_source_l-mixer_open_cnt source h = ground arith

  close_if_open :
      (o : Option ℕ) (h : Hw)
      → IsCounted k p (holds o + q) h
      → is_set o ≡ ltb 0 h.mixer_open_cnt
      → IsCounted k p q (close_mixer_l h)
  unfolding close_mixer_l
  close_if_open o h ok open_if = ground arith

  choose_source-IsCounted :
      (source : Option ℕ) (h : Hw)
      → IsCounted k p q h
      → IsCounted k p q (choose_source w source h)
        × ((choose_source w source h).wake_lock ≡ h.wake_lock)
  unfolding choose_source
  choose_source-IsCounted none h ok = (ok, refl)
  choose_source-IsCounted (some source) h ok =
      let (m, h1) = open_mixer_l w h in
      let (status, h2) = set_input_source_l w source h1 in
      let opened = open_mixer_l-IsCounted k p q h w ok in
      let set = set_input_source_l-IsCounted k p (holds m + q) h1 w source opened in
      let cnt = set_input_source_l-mixer_open_cnt source h1 in
      let still : is_set m ≡ ltb 0 h2.mixer_open_cnt =
        open_mixer_l-open h ok ∙ ap (ltb 0) (sym cnt) in
      (
        close_if_open m h2 set still,
        close_mixer_l-wake_lock h2
            ∙ set_input_source_l-wake_lock h1 w source
            ∙ open_mixer_l-wake_lock w h,
      )

module _ (k : Slack) (x : Split) (out : Option OutStream) where
  route_input-IsPlaced :
      (routing : Option ℕ) (s : InStream) (h : Hw) (o : Option OutStream) (t : InStream) (g : Hw)
      → route_input routing out s h ≡ some (o, t, g)
      → IsPlaced k x out s h
      → IsPlaced k x o t g
  unfolding route_input
  route_input-IsPlaced none s h o t g e placed = ground arith
  route_input-IsPlaced (some zero) s h o t g e placed = ground arith
  route_input-IsPlaced (some (suc d)) s h o t g e placed =
      ground (arith, in_do_standby_l-IsPlaced k x false out o (record s { devices = suc d }) t h g)

  need_echo-IsPlaced :
      (w : World) (aec need : Bool) (s : InStream) (h : Hw) (o : Option OutStream) (t : InStream)
      (g : Hw)
      → need_echo w aec need out s h ≡ some (o, t, g)
      → IsPlaced k x out s h
      → IsPlaced k x o t g
  unfolding need_echo
  need_echo-IsPlaced w aec need s h o t g e placed = ground (
    arith,
    in_do_standby_l-IsPlaced k x false out o (record s { need_echo_reference = need }) t (called h)
        g,
  )

pub in_set_parameters-IsSound :
    (w : World) (id : ℕ) (source routing : Option ℕ) (a a' : Audio)
    → in_set_parameters w id source routing a ≡ some a'
    → IsSound a
    → IsSound a'
unfolding in_set_parameters
in_set_parameters-IsSound w id source routing a a' e so =
    let c = a.hw.in_call_audio_mode in
    let k = calm c in
    let h = choose_source w source a.hw in
    settle c a' (
      at_input-IsSlack k a so id (λ x. replaced x (route_input routing a.output x.this h)) a'
        (λ x all placed.
          replaced-IsSlack k x all (route_input routing a.output x.this h) a' (λ o t g n.
            route_input-IsPlaced k x a.output routing x.this h o t g n (
              let chosen =
                choose_source-IsCounted k (out_pcm a.output)
                  (out_mixer a.output + (holds x.this.mixer + others_mixer x)) w source a.hw
                  placed.0.0 in
              ((chosen.0, placed.0.1, chosen.1 ∙ placed.0.2), placed.1, placed.2))))
        e)

pub add_audio_effect-IsSound :
    (w : World) (id effect : ℕ) (aec : Bool) (a a' : Audio)
    → add_audio_effect w id effect aec a ≡ some a'
    → IsSound a
    → IsSound a'
unfolding add_audio_effect
add_audio_effect-IsSound w id effect aec a a' e so =
    let c = a.hw.in_call_audio_mode in
    let k = calm c in
    settle c a' (
      at_input-IsSlack k a so id
        (λ x. replaced x (with_effect effect (need_echo w aec true a.output x.this a.hw))) a'
        (λ x all placed.
          replaced-IsSlack k x all (with_effect effect (need_echo w aec true a.output x.this a.hw))
            a'
            (λ o t g n. elim (Option-cases (need_echo w aec true a.output x.this a.hw)) [
              | inl m ↦ ground (arith, m)
              | inr ((o2, t2, g2), m) ↦ ground (
                arith,
                m,
                need_echo-IsPlaced k x a.output w aec true x.this a.hw o2 t2 g2 m placed,
              )
            ]))
        e)

effect_removed-IsSlack :
    (k : Slack) (w : World) (aec : Bool) (a : Audio) (x : Split) (r : Option (List ℕ)) (a' : Audio)
    → AllSoundIn (put_back x x.this)
    → IsPlaced k x a.output x.this a.hw
    → IsSlack k a
    → effect_removed w aec a x r ≡ some a'
    → IsSlack k a'
unfolding effect_removed
effect_removed-IsSlack k w aec a x none a' all placed so e = ground arith
effect_removed-IsSlack k w aec a x (some es) a' all placed so e =
    let s = record x.this { preprocessors = es } in
    replaced-IsSlack k x all (need_echo w aec false a.output s a.hw) a'
      (λ o t g n. need_echo-IsPlaced k x a.output w aec false s a.hw o t g n placed) e

pub remove_audio_effect-IsSound :
    (w : World) (id effect : ℕ) (aec : Bool) (a a' : Audio)
    → remove_audio_effect w id effect aec a ≡ some a'
    → IsSound a
    → IsSound a'
unfolding remove_audio_effect
remove_audio_effect-IsSound w id effect aec a a' e so =
    let c = a.hw.in_call_audio_mode in
    settle c a' (
      at_input-IsSlack (calm c) a so id
        (λ x. effect_removed w aec a x (without_effect effect x.this.preprocessors)) a'
        (λ x all placed.
          effect_removed-IsSlack (calm c) w aec a x (without_effect effect x.this.preprocessors) a'
            all placed so)
        e)
