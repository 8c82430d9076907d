-- ===== src/Ril/Tokens/Release.antt =====
-- FreeToken and IsValidToken, and how they undo and recognise AllocateToken.
use Prim.Native.Nat.{bit_and}
use android_device_samsung_a.Prelude.{
  ℕ, ◌-◌, ◌^◌, ◌<◌, ◌≡◌, ◌≢◌, ◌↔◌, ◌==◌, if◌then◌else◌, arith, inl, inr, min, ap, sym, ◌∙◌, ◌≤◌,
}
use android_device_samsung_a.Prelude.Bits.{
  bit, bit-le-one, bit-bit_and, bit-pow, bit_ext, bit_and-lt, bit_and-lt_right, bit-zero,
  bit_and-zero, bit_complement,
}
use android_device_samsung_a.Ril.Tokens.{
  complement, allocate_token, free_token, is_valid_token, deallocate_token,
}
use android_device_samsung_a.Ril.Tokens.Alloc.{Allocates, two-pow-lt, allocate_token_lem}

-- FreeToken clears the bits of the token and no other.
pub bit-free_token :
    (pool token i : ℕ)
    → pool < 2 ^ 32
    → token < 2 ^ 32
    → i < 32
    → bit (free_token pool token) i ≡ min (bit pool i) (1 - bit token i)
unfolding free_token
bit-free_token pool token i p t l =
    omega (arith, bit-bit_and pool (complement token) i, bit_complement 32 token i t l)

pub free_token-lt : (pool token : ℕ) → pool < 2 ^ 32 → free_token pool token < 2 ^ 32
unfolding free_token
free_token-lt pool token p = bit_and-lt 32 pool (complement token) p

pub bit-free_token_pow :
    (pool k i : ℕ)
    → pool < 2 ^ 32
    → k < 32
    → i < 32
    → bit (free_token pool (2 ^ k)) i ≡ (if k == i then 0 else bit pool i)
bit-free_token_pow pool k i p hk l =
    ground (
      arith,
      bit-free_token pool (2 ^ k) i p (two-pow-lt k 32 hk) l,
      bit-pow k i,
      bit-le-one pool i,
    )

bit-free_token_zero : (pool i : ℕ) → pool < 2 ^ 32 → i < 32 → bit (free_token pool 0) i ≡ bit pool i
bit-free_token_zero pool i w l =
    omega (arith, bit-free_token pool 0 i w (omega arith) l, bit-zero i, bit-le-one pool i)

pub undo : (pool t q : ℕ) → pool < 2 ^ 32 → Allocates pool t q → free_token q t ≡ pool
undo pool t q w a = bit_ext 32 _ _ (free_token-lt q t a.word) w λ i l. rw a.is_bit (
    ground (
      arith,
      bit-free_token_pow q a.index i a.word a.small l,
      a.bits i,
      a.was_clear,
      ap (bit pool) {x = a.index} {y = i},
    ))

-- Freeing what AllocateToken returned gives back the pool as it was before, also when it returned 0
-- because the pool was full.
pub free_token-allocate_token :
    (pool : ℕ) → pool < 2 ^ 32 → free_token (allocate_token pool).1 (allocate_token pool).0 ≡ pool
free_token-allocate_token pool w = elim (allocate_token_lem pool w) [
  | inl (_, e) ↦
      rw e (bit_ext 32 _ _ (free_token-lt pool 0 w) w λ i l. bit-free_token_zero pool i w l)
  | inr a ↦ undo pool _ _ w a
]

-- IsValidToken accepts a token exactly when it is not 0 and each of its bits is set in the pool.
pub is_valid_token_iff :
    (pool token : ℕ)
    → token < 2 ^ 32
    → (is_valid_token pool token ≡ 1)
      ↔ ((token ≢ 0) × ((i : ℕ) → i < 32 → bit token i ≤ bit pool i))
unfolding is_valid_token
is_valid_token_iff pool token w = (accepted, (λ h. valid h.0 (covers h.1)))
  where
    accepted :
        is_valid_token pool token ≡ 1 → (token ≢ 0) × ((i : ℕ) → i < 32 → bit token i ≤ bit pool i)
    accepted e = (
      parts.0,
      λ i l. omega (arith, bit-bit_and pool token i, ap (λ t. bit t i) parts.1, bit-le-one pool i),
    )
      where
        parts : (token ≢ 0) × (bit_and pool token ≡ token)
        parts = ((λ z. ground arith), ground arith)

    covers : ((i : ℕ) → i < 32 → bit token i ≤ bit pool i) → bit_and pool token ≡ token
    covers h =
        bit_ext 32 _ _ (bit_and-lt_right 32 pool token w) w
          λ i l. omega (arith, bit-bit_and pool token i, h i l)

    valid : token ≢ 0 → bit_and pool token ≡ token → is_valid_token pool token ≡ 1
    valid nz e = ground arith

-- Of a 32-bit pool and a 32-bit token other than 0, DeallocateToken, which takes the logical not where
-- FreeToken takes the complement, empties the pool, where the pool holds a bit outside the token: then its
-- result is not FreeToken's.
pub deallocate_token-ne-free_token :
    (pool token i : ℕ)
    → pool < 2 ^ 32
    → token < 2 ^ 32
    → i < 32
    → token ≢ 0
    → bit pool i ≡ 1
    → bit token i ≡ 0
    → (deallocate_token pool token ≡ 0) × (deallocate_token pool token ≢ free_token pool token)
unfolding deallocate_token
deallocate_token-ne-free_token pool token i w t l nz h k = (
  empty,
  (λ e.
      omega
        (arith, ap (λ p. bit p i) (sym e ∙ empty), bit-free_token pool token i w t l, bit-zero i)),
)
  where
    empty : deallocate_token pool token ≡ 0
    empty = ground (arith, bit_and-zero pool)
