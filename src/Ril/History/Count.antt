-- ===== src/Ril/History/Count.antt =====
-- How often a token stands in the history, and how many slots are taken.
use android_device_samsung_a.Prelude.{
  ℕ, zero, suc, ◌+◌, ◌^◌, ◌≤◌, ◌<◌, ◌≡◌, ◌≢◌, ◌⊎◌, inl, inr, refl, ap, ◌∙◌, sym, List, [], ◌∷◌,
  ◌==◌, ==_iff, Bool-cases, if◌then◌else◌, arith,
}
use android_device_samsung_a.Prelude.Bits.{bit, bit-pow}
use android_device_samsung_a.Ril.Tokens.Alloc.{bit-pow_self, two-pow-pos}
use android_device_samsung_a.Ril.History.{ReqHistory}

abbrev pub count : ℕ → List ReqHistory → ℕ
count t [] = 0
count t (s ∷ ss) = (if s.token == t then 1 else 0) + count t ss

abbrev pub occupied : List ReqHistory → ℕ
occupied [] = 0
occupied (s ∷ ss) = (if s.token == 0 then 0 else 1) + occupied ss

pub sum_below : ℕ → (ℕ → ℕ) → ℕ
sum_below zero f = 0
sum_below (suc n) f = f n + sum_below n f

-- A slot is free, and then zeroed, or holds one of the `n` tokens.
module _ (n : ℕ) where
  abbrev pub IsSlot : ReqHistory → Type 0
  IsSlot s = ((s.token ≡ 0) × (s.id ≡ 0)) ⊎ ((i : ℕ) × (i < n) × (s.token ≡ 2 ^ i))

  abbrev pub AllSlots : List ReqHistory → Type 0
  AllSlots [] = Unit {0}
  AllSlots (s ∷ ss) = IsSlot s × AllSlots ss

pub two-pow_injective : (i j : ℕ) → 2 ^ i ≡ 2 ^ j → i ≡ j
two-pow_injective i j e =
    let b : bit (2 ^ i) j ≡ 1 = ap (λ t. bit t j) e ∙ bit-pow_self j in ground (arith, bit-pow i j)

sum_below_add : (n : ℕ) (f g : ℕ → ℕ) → sum_below n (λ i. f i + g i) ≡ sum_below n f + sum_below n g
unfolding sum_below
sum_below_add zero f g = omega arith
sum_below_add (suc n) f g = omega (arith, sum_below_add n f g)

sum_below_zero : (n : ℕ) (f : ℕ → ℕ) → ((i : ℕ) → i < n → f i ≡ 0) → sum_below n f ≡ 0
unfolding sum_below
sum_below_zero zero f h = refl
sum_below_zero (suc n) f h =
    omega (arith, h n (omega arith), sum_below_zero n f (λ i l. h i (omega arith)))

abbrev hits : ℕ → ℕ → ℕ
hits t i = if t == 2 ^ i then 1 else 0

hits_other : (k i : ℕ) → k ≢ i → hits (2 ^ k) i ≡ 0
hits_other k i ne = elim (Bool-cases (2 ^ k == 2 ^ i)) [
  | inl e ↦ absurd (ne (two-pow_injective k i ((==_iff _ _).0 e)))
  | inr e ↦ rw e
]

hits_self : (n : ℕ) → hits (2 ^ n) n ≡ 1
hits_self n = ground arith

sum-hits : (n k : ℕ) → k < n → sum_below n (hits (2 ^ k)) ≡ 1
unfolding sum_below
sum-hits zero k h = absurd (omega arith)
sum-hits (suc n) k h = elim (Bool-cases (k == n)) [
  | inl e ↦ omega (
    arith,
    ap (λ t. hits (2 ^ t) n) ((==_iff k n).0 e),
    sum_below_zero n (hits (2 ^ k)) (λ i l. hits_other k i (ground arith)),
    hits_self n,
  )
  | inr e ↦
      let ne : k ≢ n = λ q. cc (e, (==_iff k n).1 q) in
      omega (arith, hits_other k n ne, sum-hits n k (omega arith))
]

sum-hits_zero : (n : ℕ) → sum_below n (hits 0) ≡ 0
sum-hits_zero n = sum_below_zero n (hits 0) λ i l. ground (arith, two-pow-pos i)

sum-count :
    (n : ℕ) (s : ReqHistory) (ss : List ReqHistory)
    → sum_below n (λ i. count (2 ^ i) (s ∷ ss))
      ≡ sum_below n (hits s.token) + sum_below n (λ i. count (2 ^ i) ss)
sum-count n s ss = sum_below_add n (hits s.token) (λ i. count (2 ^ i) ss)

-- The taken slots are counted token by token.
pub occupied-sum :
    (n : ℕ) (h : List ReqHistory) → AllSlots n h → occupied h ≡ sum_below n (λ i. count (2 ^ i) h)
occupied-sum n [] a = sym (sum_below_zero n _ λ i l. refl)
occupied-sum n (s ∷ ss) (inl (z, _), a) =
    rw (sum-count n s ss)
      (ground (arith, occupied-sum n ss a, sum-hits_zero n, ap (λ t. sum_below n (hits t)) z))
occupied-sum n (s ∷ ss) (inr (i, l, e), a) = rw (sum-count n s ss) (
    ground
      (arith, occupied-sum n ss a, sum-hits n i l, ap (λ t. sum_below n (hits t)) e, two-pow-pos i))

sum_below-le : (n : ℕ) (f : ℕ → ℕ) → ((i : ℕ) → i < n → f i ≤ 1) → sum_below n f ≤ n
unfolding sum_below
sum_below-le zero f h = omega arith
sum_below-le (suc n) f h =
    omega (arith, h n (omega arith), sum_below-le n f (λ i l. h i (omega arith)))

pub sum_below-lt :
    (n k : ℕ) (f : ℕ → ℕ) → k < n → ((i : ℕ) → i < n → f i ≤ 1) → f k ≡ 0 → sum_below n f < n
unfolding sum_below
sum_below-lt zero k f l h z = absurd (omega arith)
sum_below-lt (suc n) k f l h z = elim (Bool-cases (k == n)) [
  | inl e ↦ omega (arith, ap f ((==_iff k n).0 e), sum_below-le n f (λ i l. h i (omega arith)))
  | inr e ↦
      let ne : k ≢ n = λ q. cc (e, (==_iff k n).1 q) in
      omega
        (arith, h n (omega arith), sum_below-lt n k f (omega arith) (λ i l. h i (omega arith)) z)
]
