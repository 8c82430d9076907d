-- ===== src/Prelude/Slices.antt =====
-- Stretches of a list: what memcpy and read(2) copy.
use Prim.Native.Nat.{ℕ, zero, suc, ◌+◌, ◌≤◌, ◌<◌}
use mathlib.Core.Path.{◌≡◌, refl, ap, ◌∙◌}
use mathlib.Core.List.{List, [], ◌∷◌, ◌++◌}
use mathlib.Core.Option.{some}
use native.Mathlib.Nat.{zero-add, add-zero}
use native.Mathlib.Omega.{arith}
use android_device_samsung_a.Prelude.Lists.{length, get_elem?, take, drop}

suc-add : (m n : ℕ) → suc m + n ≡ suc (m + n)
suc-add m n = omega arith

add-suc : (m n : ℕ) → m + suc n ≡ suc (m + n)
add-suc m n = omega arith

module _ {ℓ} {A : Type ℓ} where
  -- The `n` elements from index `i` on.
  abbrev pub slice : List A → ℕ → ℕ → List A
  slice xs i n = take n (drop i xs)

  -- The list with `es` over its elements from index `i` on. A write out of bounds changes nothing.
  abbrev pub write_at : List A → ℕ → List A → List A
  write_at [] i es = []
  write_at (x ∷ xs) zero [] = x ∷ xs
  write_at (x ∷ xs) zero (e ∷ es) = e ∷ write_at xs zero es
  write_at (x ∷ xs) (suc i) es = x ∷ write_at xs i es

  pub length-write_at : (xs : List A) (i : ℕ) (es : List A) → length (write_at xs i es) ≡ length xs
  length-write_at [] i es = refl
  length-write_at (x ∷ xs) zero [] = refl
  length-write_at (x ∷ xs) zero (e ∷ es) = ap suc (length-write_at xs zero es)
  length-write_at (x ∷ xs) (suc i) es = ap suc (length-write_at xs i es)

  take_nil : (n : ℕ) → take {A = A} n [] ≡ []
  take_nil zero = refl
  take_nil (suc n) = refl

  take-add : (m n : ℕ) (xs : List A) → take (m + n) xs ≡ take m xs ++ take n (drop m xs)
  take-add zero n xs = rw zero-add refl
  take-add (suc m) n [] = rw (suc-add m n, take_nil n) refl
  take-add (suc m) n (x ∷ xs) = rw suc-add (ap (λ r. x ∷ r) (take-add m n xs))

  drop-drop : (i m : ℕ) (xs : List A) → drop m (drop i xs) ≡ drop (i + m) xs
  drop-drop zero m xs = rw zero-add refl
  drop-drop (suc i) zero [] = rw add-zero refl
  drop-drop (suc i) (suc m) [] = rw (suc-add i (suc m)) refl
  drop-drop (suc i) m (x ∷ xs) = rw suc-add (drop-drop i m xs)

  -- Two stretches that meet.
  pub slice-add :
      (xs : List A) (i m n : ℕ) → slice xs i (m + n) ≡ slice xs i m ++ slice xs (i + m) n
  slice-add xs i m n =
      take-add m n (drop i xs) ∙ ap (λ r. take m (drop i xs) ++ take n r) (drop-drop i m xs)

  -- A write leaves what lies before it.
  pub slice-write_before :
      (xs : List A) (h : ℕ) (es : List A) (i n : ℕ)
      → i + n ≤ h
      → slice (write_at xs h es) i n ≡ slice xs i n
  slice-write_before [] h es i n l = refl
  slice-write_before (x ∷ xs) zero es zero zero l = refl
  slice-write_before (x ∷ xs) zero es zero (suc n) l = absurd (omega arith)
  slice-write_before (x ∷ xs) zero es (suc i) n l = absurd (omega arith)
  slice-write_before (x ∷ xs) (suc h) es zero zero l = refl
  slice-write_before (x ∷ xs) (suc h) es zero (suc n) l =
      ap (λ r. x ∷ r) (slice-write_before xs h es zero n (omega arith))
  slice-write_before (x ∷ xs) (suc h) es (suc i) n l = slice-write_before xs h es i n (omega arith)

  -- A write leaves what lies behind it.
  pub slice-write_after :
      (xs : List A) (h : ℕ) (es : List A) (i n : ℕ)
      → h + length es ≤ i
      → slice (write_at xs h es) i n ≡ slice xs i n
  slice-write_after [] h es i n l = refl
  slice-write_after (x ∷ xs) zero [] i n l = refl
  slice-write_after (x ∷ xs) zero (e ∷ es) zero n l = absurd (omega arith)
  slice-write_after (x ∷ xs) zero (e ∷ es) (suc i) n l =
      slice-write_after xs zero es i n (omega arith)
  slice-write_after (x ∷ xs) (suc h) es zero n l = absurd (omega arith)
  slice-write_after (x ∷ xs) (suc h) es (suc i) n l = slice-write_after xs h es i n (omega arith)

  -- A write within bounds is read back.
  pub slice-write_self :
      (xs : List A) (h : ℕ) (es : List A)
      → h + length es ≤ length xs
      → slice (write_at xs h es) h (length es) ≡ es
  slice-write_self [] zero [] l = refl
  slice-write_self [] zero (e ∷ es) l = absurd (omega arith)
  slice-write_self [] (suc h) es l = absurd (omega arith)
  slice-write_self (x ∷ xs) zero [] l = refl
  slice-write_self (x ∷ xs) zero (e ∷ es) l =
      ap (λ r. e ∷ r) (slice-write_self xs zero es (omega arith))
  slice-write_self (x ∷ xs) (suc h) es l = slice-write_self xs h es (omega arith)

  pub length-slice : (xs : List A) (i n : ℕ) → i + n ≤ length xs → length (slice xs i n) ≡ n
  length-slice xs i zero l = refl
  length-slice [] zero (suc n) l = absurd (omega arith)
  length-slice [] (suc i) (suc n) l = absurd (omega arith)
  length-slice (x ∷ xs) zero (suc n) l = ap suc (length-slice xs zero n (omega arith))
  length-slice (x ∷ xs) (suc i) (suc n) l = length-slice xs i (suc n) (omega arith)

  -- The first element of a stretch.
  pub slice-suc :
      (xs : List A) (i n : ℕ)
      → i < length xs
      → (x : A) × (get_elem? xs i ≡ some x) × (slice xs i (suc n) ≡ x ∷ slice xs (suc i) n)
  slice-suc [] i n l = absurd (omega arith)
  slice-suc (x ∷ xs) zero n l = (x, refl, refl)
  slice-suc (x ∷ xs) (suc i) n l = slice-suc xs i n (omega arith)
