-- ===== src/Ril/Tokens.antt =====
-- The token pool of ril/libsecril-client/secril-client.cpp: AllocateToken, FreeToken, IsValidToken
-- and DeallocateToken. A pool and a token are `uint32_t` bit patterns.
pub mod Alloc
pub mod Release
use Prim.Native.Nat.{bit_and, bit_or}
use android_device_samsung_a.Prelude.{ℕ, zero, suc, ◌+◌, ◌-◌, ◌^◌, ◌==◌, if◌then◌else◌}

-- `~t` on `uint32_t`
abbrev pub complement : ℕ → ℕ
complement t = 2 ^ 32 - 1 - t

-- The `for` loop of AllocateToken with `n` rounds left, the next at bit `i`. It returns the token
-- (0 for none) and the pool.
allocate_from : ℕ → ℕ → ℕ → ℕ × ℕ
allocate_from zero i pool = (0, pool)
allocate_from (suc n) i pool =
    let rest = allocate_from n (i + 1) pool in
    if bit_and pool (2 ^ i) == 0 then (2 ^ i, bit_or pool (2 ^ i)) else rest

unfoldable pub allocate_token : ℕ → ℕ × ℕ
unfolding allocate_from
allocate_token pool = if pool == 0xFFFF_FFFF then (0, pool) else allocate_from 32 0 pool

unfoldable pub free_token : ℕ → ℕ → ℕ
free_token pool token = bit_and pool (complement token)

unfoldable pub is_valid_token : ℕ → ℕ → ℕ
is_valid_token pool token = if token == 0 then 0 else if bit_and pool token == token then 1 else 0

-- `!token` is the logical not.
logical_not : ℕ → ℕ
logical_not t = if t == 0 then 1 else 0

unfoldable pub deallocate_token : ℕ → ℕ → ℕ
unfolding logical_not
deallocate_token pool token = bit_and pool (logical_not token)
