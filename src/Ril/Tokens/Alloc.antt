-- ===== src/Ril/Tokens/Alloc.antt =====
-- AllocateToken takes the lowest clear bit of the pool.
use Prim.Native.Nat.{bit_and, bit_or}
use android_device_samsung_a.Prelude.{
  ℕ, zero, suc, ◌+◌, ◌-◌, ◌/◌, ◌^◌, ◌<◌, ◌≡◌, ◌≢◌, ◌⊎◌, inl, inr, refl, false, ◌==◌, ==_iff,
  Bool-cases, if◌then◌else◌, arith, ap, sym, ◌∙◌,
}
use android_device_samsung_a.Prelude.Bits.{
  bit, bit-le-one, bit-bit_or, bit-bit_and, bit-pow, bit_ext, bit_or-lt, bit-zero, bit_and-lt_right,
}
use native.Mathlib.Nat.{pow-suc}
use android_device_samsung_a.Ril.Tokens.{allocate_from, allocate_token}

pub two-pow-pos : (n : ℕ) → 0 < 2 ^ n
two-pow-pos zero = omega arith
two-pow-pos (suc n) = omega (arith, pow-suc 2 n, two-pow-pos n)

pub two-pow-lt : (i n : ℕ) → i < n → 2 ^ i < 2 ^ n
two-pow-lt i zero h = absurd (omega arith)
two-pow-lt zero (suc n) h = omega (arith, pow-suc 2 n, two-pow-pos n)
two-pow-lt (suc i) (suc n) h = omega (arith, pow-suc 2 n, pow-suc 2 i, two-pow-lt i n (omega arith))

pub bit-pow_self : (i : ℕ) → bit (2 ^ i) i ≡ 1
bit-pow_self i = ground (arith, bit-pow i i)

-- The test `pool & (1 << i)` reads bit `i`.
pub bit_and-pow_zero : (pool i : ℕ) → bit_and pool (2 ^ i) ≡ 0 → bit pool i ≡ 0
bit_and-pow_zero pool i h =
    let e : bit (bit_and pool (2 ^ i)) i ≡ 0 = rw h (bit-zero i) in
    omega (arith, bit-bit_and pool (2 ^ i) i, bit-pow_self i)

bit_and-pow_clear : (pool i : ℕ) → bit pool i ≡ 0 → bit_and pool (2 ^ i) ≡ 0
bit_and-pow_clear pool i h =
    bit_ext (suc i) (bit_and pool (2 ^ i)) 0
      (bit_and-lt_right (suc i) pool (2 ^ i) (two-pow-lt i (suc i) (omega arith)))
      (two-pow-pos (suc i))
      λ j l. ground (
        arith,
        h,
        bit-bit_and pool (2 ^ i) j,
        bit-pow i j,
        bit-zero j,
        ==_iff i j,
        ap (bit pool) {x = i} {y = j},
      )

pub bit_and-pow_one : (pool i : ℕ) → bit_and pool (2 ^ i) ≢ 0 → bit pool i ≡ 1
bit_and-pow_one pool i h = elim (Bool-cases (bit pool i == 0)) [
  | inl e ↦ absurd (h (bit_and-pow_clear pool i (ground arith)))
  | inr e ↦ ground (arith, bit-le-one pool i)
]

-- What a successful allocation does to the pool: it returns the lowest clear bit and sets it.
pub record Allocates (pool token pool' : ℕ) : Type 0 where
  pub index : ℕ
  pub small : index < 32
  pub is_bit : token ≡ 2 ^ index
  pub was_clear : bit pool index ≡ 0
  pub lowest : (j : ℕ) → j < index → bit pool j ≡ 1
  pub bits : (j : ℕ) → bit pool' j ≡ (if index == j then 1 else bit pool j)
  pub word : pool' < 2 ^ 32

bits-bit_or : (pool i j : ℕ) → bit (bit_or pool (2 ^ i)) j ≡ (if i == j then 1 else bit pool j)
bits-bit_or pool i j = ground (arith, bit-bit_or pool (2 ^ i) j, bit-pow i j, bit-le-one pool j)

below_next :
    (pool i : ℕ)
    → ((j : ℕ) → j < i → bit pool j ≡ 1)
    → bit pool i ≡ 1
    → (j : ℕ) → j < i + 1
    → bit pool j ≡ 1
below_next pool i below here j l = elim (Bool-cases (i == j)) [
  | inl e ↦ ap (bit pool) (sym ((==_iff i j).0 e)) ∙ here
  | inr e ↦ below j (ground arith)
]

allocate_from_lem :
    (n i pool : ℕ)
    → pool < 2 ^ 32
    → i + n ≡ 32
    → ((j : ℕ) → j < i → bit pool j ≡ 1)
    → ((j : ℕ) → j < 32 → bit pool j ≡ 1)
      ⊎ Allocates pool (allocate_from n i pool).0 (allocate_from n i pool).1
unfolding allocate_from
allocate_from_lem zero i pool w e below = inl (λ j l. below j (omega arith))
allocate_from_lem (suc n) i pool w e below = elim (Bool-cases (bit_and pool (2 ^ i) == 0)) [
  | inl free ↦ rw free (
      inr (record {
        index = i;
        small = omega arith;
        is_bit = refl;
        was_clear = bit_and-pow_zero pool i ((==_iff _ _).0 free);
        lowest = below;
        bits = bits-bit_or pool i;
        word = bit_or-lt 32 pool (2 ^ i) w (two-pow-lt i 32 (omega arith));
      }))
  | inr used ↦ rw used (
      allocate_from_lem n (i + 1) pool w (omega arith)
        (below_next pool i below (bit_and-pow_one pool i (λ z. cc (used, (==_iff _ _).1 z)))))
]

all_ones : (n i : ℕ) → i < n → bit (2 ^ n - 1) i ≡ 1
all_ones zero i h = absurd (omega arith)
all_ones (suc n) zero h = omega (arith, pow-suc 2 n, two-pow-pos n)
all_ones (suc n) (suc i) h =
    let e : (2 ^ suc n - 1) / 2 ≡ 2 ^ n - 1 = omega (arith, pow-suc 2 n, two-pow-pos n) in
    rw e (all_ones n i (omega arith))

full_of_ones : (pool : ℕ) → pool < 2 ^ 32 → ((j : ℕ) → j < 32 → bit pool j ≡ 1) → pool ≡ 0xFFFF_FFFF
full_of_ones pool w ones =
    bit_ext 32 pool 0xFFFF_FFFF w (omega arith) (λ j l. ones j l ∙ sym (all_ones 32 j l))

not_both : {a b : ℕ} → (a == b) ≡ false → a ≡ b → ⊥
not_both {a} {b} h e = cc (h, (==_iff a b).1 e)

-- AllocateToken fails exactly on the full pool and leaves it as it was; from any other pool it takes
-- the lowest clear bit, returns that bit alone as the token and sets no other bit.
pub allocate_token_lem :
    (pool : ℕ)
    → pool < 2 ^ 32
    → ((pool ≡ 0xFFFF_FFFF) × (allocate_token pool ≡ (0, pool)))
      ⊎ Allocates pool (allocate_token pool).0 (allocate_token pool).1
unfolding allocate_token
allocate_token_lem pool w = elim (Bool-cases (pool == 0xFFFF_FFFF)) [
  | inl full ↦ rw full (inl ((==_iff _ _).0 full, refl))
  | inr not_full ↦
      rw not_full (elim (allocate_from_lem 32 0 pool w refl λ j l. absurd (omega arith)) [
        | inl ones ↦ absurd (not_both not_full (full_of_ones pool w ones))
        | inr a ↦ inr a
      ])
]
