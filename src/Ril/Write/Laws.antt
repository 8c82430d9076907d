-- ===== src/Ril/Write/Laws.antt =====
-- `blockingWrite` sends its buffer, whole and in order, or stops at a failure.
use android_device_samsung_a.Prelude.{
  ℕ, zero, suc, ◌+◌, ◌≤◌, ◌≡◌, refl, ap, ◌∙◌, inl, inr, List, [], ◌∷◌, ◌++◌, ltb, length, take,
  drop, Bool-cases, arith,
}
use mathlib.Core.List.{append_assoc}
use native.Mathlib.Nat.{zero-add}
use android_device_samsung_a.Ril.Write.{WriteOutcome, wrote, interrupted, refused, done, write_from}

take-append-drop : (n : ℕ) (b : List ℕ) → take n b ++ drop n b ≡ b
take-append-drop zero b = refl
take-append-drop (suc n) [] = refl
take-append-drop (suc n) (x ∷ b) = rw (take-append-drop n b)

take-nil : (n : ℕ) → take {A = ℕ} n [] ≡ []
take-nil zero = refl
take-nil (suc n) = refl

suc-add : (m n : ℕ) → suc m + n ≡ suc (m + n)
suc-add m n = omega arith

take-drop-add : (off n : ℕ) (b : List ℕ) → take n (drop off b) ++ drop (off + n) b ≡ drop off b
take-drop-add zero n b = rw zero-add (take-append-drop n b)
take-drop-add (suc off) n [] = rw (suc-add off n) (rw (take-nil n) refl)
take-drop-add (suc off) n (x ∷ b) = rw (suc-add off n) (take-drop-add off n b)

drop_all : (off : ℕ) (b : List ℕ) → length b ≤ off → drop off b ≡ []
drop_all zero [] h = refl
drop_all zero (x ∷ b) h = absurd (omega arith)
drop_all (suc off) [] h = refl
drop_all (suc off) (x ∷ b) h = drop_all off b (omega arith)

-- When blockingWrite, begun at an offset, ends with success, the bytes that went out are those of the
-- buffer from the offset on, in order.
pub write_from-sent :
    (os : List WriteOutcome) (b : List ℕ) (off : ℕ)
    → (write_from os b off).end ≡ done
    → (write_from os b off).sent ≡ drop off b
unfolding write_from
write_from-sent [] b off e = ground (arith, drop_all off b)
write_from-sent (wrote n ∷ os) b off e =
    ground (arith, drop_all off b, take-drop-add off n b, write_from-sent os b (off + n))
write_from-sent (interrupted ∷ os) b off e =
    ground (arith, drop_all off b, write_from-sent os b off)
write_from-sent (refused ∷ os) b off e = ground (arith, drop_all off b)

-- Whatever happens, what went out is the beginning of what was to be sent.
pub write_from-prefix :
    (os : List WriteOutcome) (b : List ℕ) (off : ℕ)
    → (unsent : List ℕ) × ((write_from os b off).sent ++ unsent ≡ drop off b)
unfolding write_from
write_from-prefix [] b off = (drop off b, refl)
write_from-prefix (wrote n ∷ os) b off = elim (Bool-cases (ltb off (length b))) [
  | inl more ↦
      let (u, e) = write_from-prefix os b (off + n) in
      (
        u,
        rw more (
            append_assoc (take n (drop off b)) (write_from os b (off + n)).sent u
            ∙ ap (λ r. take n (drop off b) ++ r) e
            ∙ take-drop-add off n b),
      )
  | inr end ↦ (drop off b, rw end)
]
write_from-prefix (interrupted ∷ os) b off = elim (Bool-cases (ltb off (length b))) [
  | inl more ↦ let (u, e) = write_from-prefix os b off in (u, rw more e)
  | inr end ↦ (drop off b, rw end)
]
write_from-prefix (refused ∷ os) b off = (drop off b, ground arith)

-- How many calls of write(2) take at least one byte before one fails.
abbrev pub progress : List WriteOutcome → ℕ
progress [] = 0
progress (wrote zero ∷ os) = progress os
progress (wrote (suc n) ∷ os) = suc (progress os)
progress (interrupted ∷ os) = progress os
progress (refused ∷ os) = 0

-- blockingWrite, from any offset on, ends with success if as many calls of write(2) take at least one
-- byte, before one fails, as there are bytes left to write.
pub write_from-done :
    (os : List WriteOutcome) (b : List ℕ) (off : ℕ)
    → length b ≤ off + progress os
    → (write_from os b off).end ≡ done
unfolding write_from
write_from-done [] b off h = ground arith
write_from-done (wrote zero ∷ os) b off h = ground (arith, write_from-done os b (off + 0))
write_from-done (wrote (suc n) ∷ os) b off h = ground (arith, write_from-done os b (off + suc n))
write_from-done (interrupted ∷ os) b off h = ground (arith, write_from-done os b off)
write_from-done (refused ∷ os) b off h = ground arith
