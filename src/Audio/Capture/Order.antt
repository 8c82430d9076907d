-- ===== src/Audio/Capture/Order.antt =====
-- What readFrames of libaudio/AudioHardware.cpp delivers: the frames of the driver, in order.
use android_device_samsung_a.Prelude.{
  ℕ, zero, suc, ◌+◌, ◌-◌, ◌≤◌, ◌<◌, ◌≡◌, ◌∙◌, refl, sym, ap, min, Bool, true, false, ◌||◌, Option,
  none, some, List, [], ◌∷◌, ◌++◌, ◌==◌, take, drop, length, length-take, length-drop,
  length-append, if◌then◌else◌, arith,
}
use mathlib.Core.List.{append_assoc}
use android_device_samsung_a.Prelude.Int.{ℤ, pos, negsuc}
use android_device_samsung_a.Sensors.Reader.{neg}
use android_device_samsung_a.Audio.Config.{in_period_sz}
use android_device_samsung_a.Audio.Capture.{
  PcmRead, read_failed, period, Capture, Buffer, pending, hand_out, get_next_buffer, release_buffer,
  copied, is_read_ok,
}

abbrev pub is_error : ℤ → Bool
is_error (pos n) = false
is_error (negsuc n) = true

pub status-is_error :
    (st : ℤ) → (is_read_ok st || is_error st) ≡ true → is_read_ok st ≡ false → is_error st ≡ true
status-is_error (pos zero) known e = cc
status-is_error (pos (suc n)) known e = known
status-is_error (negsuc n) known e = refl

module _ {F : Type 0} where
  pub take-drop : (k : ℕ) (xs : List F) → take k xs ++ drop k xs ≡ xs
  take-drop zero xs = refl
  take-drop (suc k) [] = refl
  take-drop (suc k) (x ∷ xs) = ap (x ∷◌) (take-drop k xs)

  drop-nil : (n : ℕ) → ◌≡◌ {A = List F} (drop n []) []
  drop-nil zero = refl
  drop-nil (suc n) = refl

  drop-add : (m k : ℕ) (xs : List F) → drop (m + k) xs ≡ drop k (drop m xs)
  drop-add zero k xs = let e : 0 + k ≡ k = omega arith in ap (λ n. drop n xs) e
  drop-add (suc m) k [] = drop-nil (suc m + k) ∙ sym (drop-nil k)
  drop-add (suc m) k (x ∷ xs) =
      let e : suc m + k ≡ suc (m + k) = omega arith in ap (λ n. drop n (x ∷ xs)) e ∙ drop-add m k xs

  take-drop_from : (k m : ℕ) (xs : List F) → take k (drop m xs) ++ drop (m + k) xs ≡ drop m xs
  take-drop_from k m xs = ap (take k (drop m xs) ++◌) (drop-add m k xs) ∙ take-drop k (drop m xs)

  -- Every period that pcm_read gives is a whole one.
  abbrev pub AreWhole : List (PcmRead F) → Type 0
  AreWhole [] = Unit
  AreWhole (read_failed e ∷ rs) = (0 < e) × AreWhole rs
  AreWhole (period fs ∷ rs) = (length fs ≡ in_period_sz) × AreWhole rs

  -- A period that is whole, no more frames left than it has, and none behind an error.
  abbrev pub IsCapture : Capture F → Type 0
  IsCapture c =
      (length c.input_buf ≡ in_period_sz)
      × (c.input_frames_in ≤ in_period_sz)
      × ((is_read_ok c.read_status || (c.input_frames_in == 0)) ≡ true)
      × AreWhole c.reads
      × ((is_read_ok c.read_status || is_error c.read_status) ≡ true)

  -- The frames of the driver in their order.
  abbrev pub stream : List (PcmRead F) → List F
  stream [] = []
  stream (read_failed e ∷ rs) = stream rs
  stream (period fs ∷ rs) = fs ++ stream rs

  abbrev pub ahead : Capture F → List F
  ahead c = pending c ++ stream c.reads

  -- Handing out frames of what is pending.
  hand_out-lem :
      (n : ℕ) (c : Capture F)
      → IsCapture c
      → let (b, c') = hand_out n c in
        IsCapture (release_buffer b c')
        × (copied b ++ ahead (release_buffer b c') ≡ ahead c)
        × (length (copied b) ≡ min n c.input_frames_in)
  unfolding pending release_buffer
  hand_out-lem n c ok =
      let k = min n c.input_frames_in in
      let off = in_period_sz - c.input_frames_in in
      let len : length (take k (pending c)) ≡ k =
        omega (arith, length-take k (pending c), length-drop off c.input_buf, ok.0, ok.1) in
      let rest = pending (release_buffer (some (take k (pending c))) c) in
      let at : in_period_sz - (c.input_frames_in - length (take k (pending c))) ≡ off + k =
        omega (arith, len, ok.1) in
      let joined : take k (pending c) ++ rest ≡ pending c =
        ap (λ i. take k (pending c) ++ drop i c.input_buf) at ∙ take-drop_from k off c.input_buf in
      (
        ground (arith, len),
        sym (append_assoc (take k (pending c)) rest (stream c.reads))
            ∙ ap (◌++ stream c.reads) joined,
        len,
      )

  drop-all : (n : ℕ) (xs : List F) → length xs ≤ n → drop n xs ≡ []
  drop-all zero [] h = refl
  drop-all zero (x ∷ xs) h = absurd (omega arith)
  drop-all (suc n) [] h = refl
  drop-all (suc n) (x ∷ xs) h = drop-all n xs (omega (arith, h))

  -- One round: what it copies, or the error with which it ends.
  abbrev pub IsRound : ℕ → Capture F → Buffer F → Capture F → Type 0
  IsRound n c b c' =
      IsCapture c'
      × (copied b ++ ahead c' ≡ ahead c)
      × (length (copied b) ≤ n)
      × (length (copied b) ≤ (if is_read_ok c'.read_status then n else 0))
      × (0 < (if is_read_ok c'.read_status then length (copied b) else 1))

  handed_out :
      (n : ℕ) (c : Capture F)
      → IsCapture c
      → 0 < n
      → 0 < c.input_frames_in
      → IsRound n c (hand_out n c).0 (release_buffer (hand_out n c).0 (hand_out n c).1)
  unfolding release_buffer
  handed_out n c ok more_frames some_left = ground (arith, hand_out-lem n c ok)

  abbrev pub holding : List F → ℕ → ℤ → List (PcmRead F) → Capture F
  holding buf k st rs = record {
    input_buf = buf;
    input_frames_in = k;
    read_status = st;
    reads = rs;
  }

  unfoldable pub IsReturned : ℕ → Capture F → Option (Buffer F × Capture F) → Type 0
  IsReturned n c none = length (ahead c) ≡ 0
  IsReturned n c (some (b, c')) = IsRound n c b (release_buffer b c')

  failed-IsRound :
      (n : ℕ) (buf : List F) (st : ℤ) (e : ℕ) (rs : List (PcmRead F))
      → IsCapture (holding buf 0 st (read_failed e ∷ rs))
      → IsRound n
          (holding buf 0 st (read_failed e ∷ rs))
          none
          (release_buffer none (holding buf 0 (neg e) rs))
  unfolding pending release_buffer
  failed-IsRound n buf st zero rs ok = ground arith
  failed-IsRound n buf st (suc e) rs ok =
      ((ok.0, ok.1, refl, ok.3.1, refl), refl, omega arith, omega arith, omega arith)

  period-IsRound :
      (n : ℕ) (buf : List F) (st : ℤ) (fs : List F) (rs : List (PcmRead F))
      → IsCapture (holding buf 0 st (period fs ∷ rs))
      → 0 < n
      → IsRound n
          (holding buf 0 st (period fs ∷ rs))
          (hand_out n (holding fs in_period_sz (pos 0) rs)).0
          (release_buffer
            (hand_out n (holding fs in_period_sz (pos 0) rs)).0
            (holding fs in_period_sz (pos 0) rs))
  unfolding pending
  period-IsRound n buf st fs rs ok some_frames =
      let c' = holding fs in_period_sz (pos 0) rs in
      let handed =
        handed_out n c' (ok.3.0, omega arith, refl, ok.3.1, refl) some_frames (omega arith) in
      let behind = sym (ap (◌++ (fs ++ stream rs)) (drop-all 1024 buf (omega (arith, ok.0)))) in
      (handed.0, handed.1 ∙ behind, handed.2, handed.3, handed.4)

  pub round :
      (n k : ℕ) (buf : List F) (st : ℤ) (rs : List (PcmRead F))
      → IsCapture (holding buf k st rs)
      → 0 < n
      → IsReturned n (holding buf k st rs) (get_next_buffer true n (holding buf k st rs))
  unfolding get_next_buffer IsReturned pending
  round n zero buf st [] ok some_frames =
      omega (arith, ok.0, length-drop 1024 buf, length-append (drop 1024 buf) [])
  round n zero buf st (read_failed e ∷ rs) ok some_frames = failed-IsRound n buf st e rs ok
  round n zero buf st (period fs ∷ rs) ok some_frames = period-IsRound n buf st fs rs ok some_frames
  round n (suc k) buf st rs ok some_frames =
      handed_out n (holding buf (suc k) st rs) ok some_frames (omega arith)
