-- ===== src/Ril/Request/Consistent.antt =====
-- The invariant that ties the token pool to the request history.
use android_device_samsung_a.Prelude.{
  ℕ, ◌-◌, ◌^◌, ◌<◌, ◌≡◌, ◌≢◌, ap, ◌∙◌, inl, inr, List, ==_iff, Bool-cases, ◌==◌, if◌then◌else◌,
  length, arith,
}
use android_device_samsung_a.Prelude.Bits.{bit, bit-le-one}
use android_device_samsung_a.Ril.Tokens.{free_token}
use android_device_samsung_a.Ril.Tokens.Alloc.{two-pow-pos}
use android_device_samsung_a.Ril.Tokens.Release.{bit-free_token_pow, free_token-lt}
use android_device_samsung_a.Ril.History.{ReqHistory, clear_req_history}
use android_device_samsung_a.Ril.History.Count.{count, AllSlots, two-pow_injective}
use android_device_samsung_a.Ril.History.Update.{length-clear, count-clear, AllSlots-clear}
use android_device_samsung_a.Ril.Handlers.Table.{IsTable}
use android_device_samsung_a.Ril.Client.{Client}
use android_device_samsung_a.Ril.Request.{release}

-- A token is in use, its bit set in the pool, exactly when one slot of the history holds it.
pub record Matches (pool : ℕ) (history : List ReqHistory) : Type 0 where
  pub word : pool < 2 ^ 32
  pub slots : length history ≡ 32
  pub valid : AllSlots 32 history
  pub in_use : (i : ℕ) → i < 32 → count (2 ^ i) history ≡ bit pool i

abbrev pub IsConsistent : Client → Type 0
IsConsistent c = Matches c.token_pool c.history

pub two-pow-ne : (i : ℕ) → 2 ^ i ≢ 0
two-pow-ne i e = omega (arith, two-pow-pos i)

in_use-release :
    (pool : ℕ) (h : List ReqHistory) (k : ℕ)
    → k < 32
    → Matches pool h
    → (i : ℕ) → i < 32
    → count (2 ^ i) (clear_req_history h (2 ^ k)) ≡ bit (free_token pool (2 ^ k)) i
in_use-release pool h k l m i li = elim (Bool-cases (k == i)) [
  | inl e ↦
      let same : 2 ^ k ≡ 2 ^ i = ap (λ j. 2 ^ j) ((==_iff k i).0 e) in
      ground (arith, counted, freed, m.in_use i li, bit-le-one pool i, same)
  | inr e ↦
      let differ : 2 ^ k ≢ 2 ^ i = λ q. cc (e, (==_iff k i).1 (two-pow_injective k i q)) in
      ground (arith, counted, freed, m.in_use i li, differ)
]
  where
    counted :
        count (2 ^ i) (clear_req_history h (2 ^ k))
        ≡ (if 2 ^ k == 2 ^ i then count (2 ^ i) h - 1 else count (2 ^ i) h)
    counted = count-clear h (2 ^ k) (2 ^ i) (two-pow-ne i)

    freed : bit (free_token pool (2 ^ k)) i ≡ (if k == i then 0 else bit pool i)
    freed = bit-free_token_pow pool k i m.word l li

-- Releasing a token keeps the invariant, whether the token was in use or not.
pub release-IsConsistent :
    (c : Client) (k : ℕ) → k < 32 → IsConsistent c → IsConsistent (release c (2 ^ k))
unfolding release
release-IsConsistent c k l m = record {
  word = free_token-lt c.token_pool (2 ^ k) m.word;
  slots = length-clear c.history (2 ^ k) ∙ m.slots;
  valid = AllSlots-clear 32 c.history (2 ^ k) m.valid;
  in_use = in_use-release c.token_pool c.history k l m;
}

-- The whole invariant of a client.
pub record IsClient (c : Client) : Type 0 where
  pub consistent : IsConsistent c
  pub reqs : IsTable c.req_handlers
  pub unsols : IsTable c.unsol_handlers
