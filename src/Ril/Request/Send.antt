-- ===== src/Ril/Request/Send.antt =====
-- What SendOemRequestHookRaw does on each branch.
use android_device_samsung_a.Prelude.{
  ℕ, ◌+◌, ◌^◌, ◌<◌, ◌≡◌, ◌≢◌, ◌⊎◌, inl, inr, refl, ap, ◌∙◌, true, false, none, some, List, [], ◌++◌,
  ◌==◌, ==_iff, ==_ne, Bool-cases, if◌then◌else◌, length, arith,
}
use android_device_samsung_a.Prelude.Bits.{bit, bit-le-one}
use android_device_samsung_a.Ril.Status.{success, again, unknown}
use android_device_samsung_a.Ril.Tokens.Alloc.{Allocates, allocate_token_lem}
use android_device_samsung_a.Ril.Tokens.Release.{undo}
use android_device_samsung_a.Ril.History.{
  ReqHistory, record_req_history, clear_req_history, find_id,
}
use android_device_samsung_a.Ril.History.Count.{
  count, sum_below-lt, occupied-sum, two-pow_injective,
}
use android_device_samsung_a.Ril.History.Update.{
  record_full, length-record, count-record, AllSlots-record, find_id-record, clear-record,
}
use android_device_samsung_a.Ril.Parcel.{ParcelApi}
use android_device_samsung_a.Ril.Client.{Client}
use android_device_samsung_a.Ril.Write.{WriteOutcome, write_from, blocking_write}
use android_device_samsung_a.Ril.Write.Laws.{write_from-sent}
use android_device_samsung_a.Ril.Request.{
  Sending, htonl, release, send_body, transmit, request_bytes, send_recorded, send_allocated,
  send_oem_request_hook_raw,
}
use android_device_samsung_a.Ril.Request.Consistent.{Matches, IsConsistent, two-pow-ne}

pub token-ne : {pool t pool' : ℕ} → Allocates pool t pool' → t ≢ 0
token-ne a = rw a.is_bit (two-pow-ne a.index)

module _ {pool t pool' : ℕ} {h : List ReqHistory} (id : ℕ) where
  -- A token that was just allocated always finds a free slot.
  pub record-success :
      Matches pool h → Allocates pool t pool' → (record_req_history h t id).0 ≡ success
  record-success m a = elim (record_full h t id) [
    | inl ok ↦ ok
    | inr (_, full) ↦ absurd (
        omega (
          arith,
          full,
          m.slots,
          occupied-sum 32 h m.valid,
          sum_below-lt 32 a.index (λ i. count (2 ^ i) h) a.small
              (λ i l. omega (arith, m.in_use i l, bit-le-one pool i))
              (m.in_use a.index a.small ∙ a.was_clear),
        ))
  ]

  token_unused : Matches pool h → Allocates pool t pool' → count t h ≡ 0
  token_unused m a = rw a.is_bit (m.in_use a.index a.small ∙ a.was_clear)

  in_use-record :
      Matches pool h
      → (a : Allocates pool t pool') → (i : ℕ) → i < 32
      → count (2 ^ i) (record_req_history h t id).1 ≡ bit pool' i
  in_use-record m a i l = elim (Bool-cases (a.index == i)) [
    | inl e ↦ ground (
      arith,
      counted,
      a.bits i,
      m.in_use i l,
      a.is_bit,
      a.was_clear,
      ap (λ j. 2 ^ j) ((==_iff a.index i).0 e),
      ap (bit pool) ((==_iff a.index i).0 e),
    )
    | inr e ↦
        let differ : 2 ^ a.index ≢ 2 ^ i =
          λ q. cc (e, (==_iff a.index i).1 (two-pow_injective a.index i q)) in
        ground (arith, counted, a.bits i, m.in_use i l, a.is_bit, differ)
  ]
    where
      counted :
          count (2 ^ i) (record_req_history h t id).1
          ≡ (if t == 2 ^ i then 1 else 0) + count (2 ^ i) h
      counted = count-record h t id (2 ^ i) (two-pow-ne i) (record-success m a)

  pub Matches-record :
      Matches pool h → Allocates pool t pool' → Matches pool' (record_req_history h t id).1
  Matches-record m a = record {
    word = a.word;
    slots = length-record h t id ∙ m.slots;
    valid = AllSlots-record 32 h t id a.index a.is_bit a.small m.valid;
    in_use = in_use-record m a;
  }

  pub find_id-recorded :
      Matches pool h → Allocates pool t pool' → find_id (record_req_history h t id).1 t ≡ some id
  find_id-recorded m a = find_id-record h t id (token-ne a) (token_unused m a) (record-success m a)

  pub clear-recorded :
      Matches pool h
      → Allocates pool t pool'
      → clear_req_history (record_req_history h t id).1 t ≡ h
  clear-recorded m a =
      clear-record 32 h t id (token-ne a) (token_unused m a) m.valid (record-success m a)

-- The three ways in which the two writes end.
abbrev pub Transmits : Client → ℕ → List ℕ → Sending → Type 0
Transmits c t body r =
    ((r.status ≡ some success)
      × (r.client ≡ c)
      × (r.sent ≡ htonl (length body) ++ body)
      × (r.sock_closed ≡ false))
    ⊎ (((r.status ≡ none) × (r.client ≡ c) × (r.sock_closed ≡ false))
        ⊎ ((r.status ≡ some unknown) × (r.client ≡ release c t) × (r.sock_closed ≡ true)))

send_body-Transmits :
    (c : Client) (t : ℕ) (header body : List ℕ) (os : List WriteOutcome)
    → header ≡ htonl (length body)
    → Transmits c t body (send_body c t header body os)
unfolding send_body blocking_write
send_body-Transmits c t header body os e = ground (arith, write_from-sent os body 0)

pub transmit-Transmits :
    (c : Client) (t : ℕ) (body : List ℕ) (os : List WriteOutcome)
    → Transmits c t body (transmit c t body os)
unfolding transmit blocking_write
transmit-Transmits c t body os =
    let w = write_from os (htonl (length body)) 0 in
    ground (
      arith,
      write_from-sent os (htonl (length body)) 0,
      send_body-Transmits c t w.sent body w.rest,
    )

-- A request that is on its way: its token is the lowest that was free, the history says which request
-- it stands for, and nothing else of the client changed.
pub record InFlight (c : Client) (id : ℕ) (c' : Client) : Type 0 where
  pub token : ℕ
  pub allocates : Allocates c.token_pool token c'.token_pool
  pub known : find_id c'.history token ≡ some id
  pub consistent : IsConsistent c'
  pub rest_same : c' ≡ record c { token_pool = c'.token_pool; history = c'.history }

module _ (api : ParcelApi) where
  -- How a request can end.
  abbrev pub Sends : Client → ℕ → List ℕ → Sending → Type 0
  Sends c id payload r =
      ((r.status ≡ some again) × (r.client ≡ c) × (r.sent ≡ []) × (c.token_pool ≡ 0xFFFF_FFFF))
      ⊎ (((r.status ≡ some unknown) × (r.client ≡ c) × (r.sock_closed ≡ true))
          ⊎ ((f : InFlight c id r.client) × ((r.status ≡ none)
                ⊎ ((r.status ≡ some success)
                    × (r.sent
                        ≡ htonl (length (request_bytes api f.token payload))
                          ++ request_bytes api f.token payload)))))

  in_flight :
      (c : Client) (id : ℕ) (t pool' : ℕ)
      → IsConsistent c
      → Allocates c.token_pool t pool'
      → InFlight c id
          (record c { token_pool = pool'; history = (record_req_history c.history t id).1 })
  in_flight c id t pool' m a = record {
    token = t;
    allocates = a;
    known = find_id-recorded id m a;
    consistent = Matches-record id m a;
    rest_same = refl;
  }

  released :
      (c : Client) (id : ℕ) (t pool' : ℕ)
      → IsConsistent c
      → Allocates c.token_pool t pool'
      → release (record c { token_pool = pool'; history = (record_req_history c.history t id).1 }) t
        ≡ c
  unfolding release
  released c id t pool' m a = λ i. record c {
    token_pool = undo c.token_pool t pool' m.word a i;
    history = clear-recorded id m a i;
  }

  Sends-of_Transmits :
      (c : Client) (id : ℕ) (t pool' : ℕ) (payload : List ℕ) (r : Sending)
      → IsConsistent c
      → Allocates c.token_pool t pool'
      → Transmits
          (record c { token_pool = pool'; history = (record_req_history c.history t id).1 })
          t
          (request_bytes api t payload)
          r
      → Sends c id payload r
  unfolding in_flight
  Sends-of_Transmits c id t pool' payload r m a (inl (s, e, b, _)) =
      inr (inr (rw (e) (in_flight c id t pool' m a), inr (s, b)))
  Sends-of_Transmits c id t pool' payload r m a (inr (inl (s, e, _))) =
      inr (inr (rw (e) (in_flight c id t pool' m a), inl s))
  Sends-of_Transmits c id t pool' payload r m a (inr (inr (s, e, k))) =
      inr (inl (s, e ∙ released c id t pool' m a, k))

  send_allocated-Sends :
      (c : Client) (id : ℕ) (payload : List ℕ) (os : List WriteOutcome) (t pool' : ℕ)
      → IsConsistent c
      → Allocates c.token_pool t pool'
      → Sends c id payload (send_allocated api c id payload os t pool')
  unfolding send_allocated
  send_allocated-Sends c id payload os t pool' m a =
      rw (==_ne t 0 (token-ne a), record-success id m a, send_recorded)
        (Sends-of_Transmits c id t pool' payload (transmit recorded t body os) m a
          (transmit-Transmits recorded t body os))
    where
      recorded : Client
      recorded = record c { token_pool = pool'; history = (record_req_history c.history t id).1 }

      body : List ℕ
      body = request_bytes api t payload

  -- Of a consistent client SendOemRequestHookRaw returns RIL_CLIENT_ERR_AGAIN, with the client as it
  -- was and nothing sent, only if all 32 tokens are in use; RIL_CLIENT_ERR_UNKNOWN, with the client as
  -- it was, only if a write failed and so the socket was closed; otherwise the request is in flight
  -- under a fresh token, and once the function has returned, the length header and the whole parcel
  -- are sent.
  pub send_lem :
      (c : Client) (id : ℕ) (payload : List ℕ) (os : List WriteOutcome)
      → IsConsistent c
      → Sends c id payload (send_oem_request_hook_raw api c id payload os)
  unfolding send_oem_request_hook_raw
  send_lem c id payload os m = elim (allocate_token_lem c.token_pool m.word) [
    | inl (full, e) ↦ rw e (inl (refl, refl, refl, full))
    | inr a ↦ send_allocated-Sends c id payload os _ _ m a
  ]
