-- ===== src/Audio/Sound/Inputs.antt =====
-- mInputs of libaudio/AudioHardware.cpp taken apart at a stream and put together again.
use android_device_samsung_a.Prelude.{
  ℕ, ◌+◌, ◌≤◌, ◌≡◌, refl, Bool, true, not, none, some, List, [], ◌∷◌, ◌++◌, arith,
}
use android_device_samsung_a.Audio.State.{InStream}
use android_device_samsung_a.Audio.Mode.{Split, split_first, get_active_input_l, put_back}
use android_device_samsung_a.Audio.Sound.{to_nat, holds}
use android_device_samsung_a.Audio.Sound.Streams.{IsSoundIn}

-- How many inputs have the mixer, and how many are active.
abbrev pub mixer_users : List InStream → ℕ
mixer_users [] = 0
mixer_users (s ∷ ss) = holds s.mixer + mixer_users ss

abbrev pub actives : List InStream → ℕ
actives [] = 0
actives (s ∷ ss) = to_nat (not s.standby) + actives ss

abbrev pub AllSoundIn : List InStream → Type 0
AllSoundIn [] = Unit
AllSoundIn (s ∷ ss) = IsSoundIn s × AllSoundIn ss

pub mixer_users-append :
    (xs ys : List InStream) → mixer_users (xs ++ ys) ≡ mixer_users xs + mixer_users ys
mixer_users-append [] ys = omega arith
mixer_users-append (x ∷ xs) ys = omega (arith, mixer_users-append xs ys)

pub actives-append : (xs ys : List InStream) → actives (xs ++ ys) ≡ actives xs + actives ys
actives-append [] ys = omega arith
actives-append (x ∷ xs) ys = omega (arith, actives-append xs ys)

pub AllSoundIn-append :
    (xs ys : List InStream) → AllSoundIn xs → AllSoundIn ys → AllSoundIn (xs ++ ys)
AllSoundIn-append [] ys hx hy = hy
AllSoundIn-append (x ∷ xs) ys (h, hx) hy = (h, AllSoundIn-append xs ys hx hy)

pub AllSoundIn-parts :
    (xs ys : List InStream) → AllSoundIn (xs ++ ys) → AllSoundIn xs × AllSoundIn ys
AllSoundIn-parts [] ys h = (tt, h)
AllSoundIn-parts (x ∷ xs) ys (h, hs) = let (hx, hy) = AllSoundIn-parts xs ys hs in ((h, hx), hy)

-- Of inputs in standby none has the mixer.
pub mixer_users-actives : (ss : List InStream) → AllSoundIn ss → mixer_users ss ≤ actives ss
mixer_users-actives [] h = omega arith
mixer_users-actives (s ∷ ss) h = omega (arith, mixer_users-actives ss h.1)

pub split_first-found :
    (test : InStream → Bool) (ss : List InStream) (x : Split)
    → split_first test ss ≡ some x
    → (ss ≡ put_back x x.this) × (test x.this ≡ true)
unfolding split_first
split_first-found test [] x e = cc
split_first-found test (s ∷ ss) x e = grind (arith, split_first-found test ss)

pub get_active_input_l-none : (ss : List InStream) → get_active_input_l ss ≡ none → actives ss ≡ 0
unfolding get_active_input_l split_first
get_active_input_l-none [] e = refl
get_active_input_l-none (s ∷ ss) e = ground (arith, get_active_input_l-none ss)

pub put_back-this : (x : Split) → AllSoundIn (put_back x x.this) → IsSoundIn x.this
put_back-this x all = (AllSoundIn-parts x.before (x.this ∷ x.after) all).1.0

-- An input among the others.
module _ (x : Split) (s : InStream) where
  pub put_back-mixer_users :
      mixer_users (put_back x s) ≡ holds s.mixer + (mixer_users x.before + mixer_users x.after)
  put_back-mixer_users = omega (arith, mixer_users-append x.before (s ∷ x.after))

  pub put_back-actives :
      actives (put_back x s) ≡ to_nat (not s.standby) + (actives x.before + actives x.after)
  put_back-actives = omega (arith, actives-append x.before (s ∷ x.after))

  pub put_back-AllSoundIn : AllSoundIn (put_back x x.this) → IsSoundIn s → AllSoundIn (put_back x s)
  put_back-AllSoundIn all so =
      let (hx, hy) = AllSoundIn-parts x.before (x.this ∷ x.after) all in
      AllSoundIn-append x.before (s ∷ x.after) hx (so, hy.1)

  -- In the place of the one active input.
  pub put_back-active :
      not x.this.standby ≡ true
      → AllSoundIn (put_back x x.this)
      → actives (put_back x x.this) ≤ 1
      → IsSoundIn s
      → AllSoundIn (put_back x s)
        × (actives (put_back x s) ≡ to_nat (not s.standby))
        × (mixer_users (put_back x s) ≡ holds s.mixer)
  put_back-active active all one so =
      let (hx, hy) = AllSoundIn-parts x.before (x.this ∷ x.after) all in
      ground (
        arith,
        hx,
        hy,
        mixer_users-actives x.before hx,
        mixer_users-actives x.after hy.1,
        put_back-actives,
        put_back-mixer_users,
        put_back-AllSoundIn all so,
        actives-append x.before (x.this ∷ x.after),
      )
