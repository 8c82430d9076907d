-- ===== src/Ril/Response/Answer.antt =====
-- The answer to a request reaches that request's handler, and a malformed token breaks the client.
use android_device_samsung_a.Prelude.{
  ℕ, ◌^◌, ◌≤◌, ◌<◌, ◌≡◌, ◌≢◌, ap, ◌&&◌, not, ◌==◌, if◌then◌else◌, none, some, arith, ==_ne,
}
use android_device_samsung_a.Prelude.Bits.{bit, bit-le-one, bit-pow, bit-zero}
use android_device_samsung_a.Ril.Status.{Status, success}
use android_device_samsung_a.Ril.Tokens.{is_valid_token}
use android_device_samsung_a.Ril.Tokens.Release.{is_valid_token_iff, bit-free_token}
use android_device_samsung_a.Ril.History.{clear_req_history, find_id}
use android_device_samsung_a.Ril.History.Count.{count}
use android_device_samsung_a.Ril.History.Update.{count-clear}
use android_device_samsung_a.Ril.Handlers.{lookup}
use android_device_samsung_a.Ril.Parcel.{ParcelApi}
use android_device_samsung_a.Ril.Client.{Client}
use android_device_samsung_a.Ril.Request.{release}
use android_device_samsung_a.Ril.Request.Consistent.{IsConsistent, two-pow-ne}
use android_device_samsung_a.Ril.Response.Calls.{Callbacks}
use android_device_samsung_a.Ril.Response.{notify_error, process_valid, process_solicited}

-- A token of two bits, of which one is in use, is released in the pool and not in the history.
release_compound :
    (c : Client) (t i j : ℕ)
    → IsConsistent c
    → t < 2 ^ 32
    → i < 32
    → j < 32
    → i ≢ j
    → bit t i ≡ 1
    → bit t j ≡ 1
    → bit c.token_pool i ≡ 1
    → ¬ IsConsistent (release c t)
unfolding release
release_compound c t i j m w li lj ne bi bj used m' =
    omega (arith, m'.in_use i li, m.in_use i li, kept, bit-free_token c.token_pool t i m.word w li)
  where
    not_pow : t ≢ 2 ^ i
    not_pow e = ground (arith, ap (λ u. bit u j) e, bit-pow i j, bj)

    kept : count (2 ^ i) (clear_req_history c.history t) ≡ count (2 ^ i) c.history
    kept = ground (arith, count-clear c.history t (2 ^ i) (two-pow-ne i), not_pow)

valid_of_covered :
    (pool t i : ℕ)
    → t < 2 ^ 32
    → bit t i ≡ 1
    → ((n : ℕ) → n < 32 → bit t n ≤ bit pool n)
    → is_valid_token pool t ≡ 1
valid_of_covered pool t i w b covered =
    (is_valid_token_iff pool t w).1
      ((λ e. omega (arith, ap (λ u. bit u i) e, b, bit-zero i)), covered)

-- What is left in the client of a request with token 2^k that was answered by the handler of `id`, from the
-- client `c1` behind that handler.
abbrev pub IsAnswered : Client → ℕ → ℕ → Status × Client → Type 0
IsAnswered c1 k id r =
    (r.0 ≡ success)
    × ((i : ℕ) → i < 32 → bit r.1.token_pool i ≡ (if k == i then 0 else bit c1.token_pool i))
    × (count (2 ^ k) r.1.history ≡ 0)
    × ((u : ℕ) → u ≢ 0 → u ≢ 2 ^ k → find_id r.1.history u ≡ find_id c1.history u)
    × ((j : ℕ)
        → lookup r.1.req_handlers j
          ≡ (if (id == j) && not (c1.b_del_handler == 0) then none else lookup c1.req_handlers j))
    × (r.1.b_del_handler ≡ 0)

module _ (api : ParcelApi) (cb : Callbacks) (c : Client) (p : api.Parcel) where
  -- IsValidToken accepts a token that joins two tokens in use, and then FreeToken gives both back while
  -- ClearReqHistory finds no record: after such an error response the pool and the history disagree.
  pub process_solicited_compound :
      (t i j err : ℕ) (p' p'' : api.Parcel)
      → IsConsistent c
      → t < 2 ^ 32
      → i < 32
      → j < 32
      → i ≢ j
      → bit t i ≡ 1
      → bit t j ≡ 1
      → ((n : ℕ) → n < 32 → bit t n ≤ bit c.token_pool n)
      → c.err_cb ≡ none
      → err ≢ 0
      → api.read_int32 p ≡ some (t, p')
      → api.read_int32 p' ≡ some (err, p'')
      → ¬ IsConsistent (process_solicited api cb c p).1
  unfolding process_solicited
  process_solicited_compound t i j err p' p'' m w li lj ne bi bj covered silent nz e e' =
      rw
        (
          e,
          process_solicited,
          valid_of_covered c.token_pool t i w bi covered,
          e',
          process_valid,
          ==_ne err 0 nz,
          silent,
          notify_error,
        )
        (release_compound c t i j m w li lj ne bi bj
          (omega (arith, covered i li, bit-le-one c.token_pool i)))
