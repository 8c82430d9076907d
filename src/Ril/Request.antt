-- ===== src/Ril/Request.antt =====
-- SendOemRequestHookRaw of ril/libsecril-client/secril-client.cpp.
pub mod Consistent
pub mod Send
use android_device_samsung_a.Prelude.{
  ℕ, ◌/◌, ◌%◌, ◌^◌, Bool, true, false, Option, none, some, List, [], ◌∷◌, ◌++◌, ◌==◌, if◌then◌else◌,
  length,
}
use android_device_samsung_a.Ril.Status.{Status, success, again, unknown}
use android_device_samsung_a.Ril.Tokens.{allocate_token, free_token}
use android_device_samsung_a.Ril.History.{record_req_history, clear_req_history}
use android_device_samsung_a.Ril.Parcel.{ParcelApi}
use android_device_samsung_a.Ril.Client.{Client}
use android_device_samsung_a.Ril.Write.{
  WriteOutcome, WriteEnd, done, closed, pending, Written, blocking_write,
}

-- The result of a request: the code returned (`none` while a write waits), the client, the bytes that
-- went to the socket, whether `blockingWrite` closed it, and the write outcomes left over.
pub record Sending : Type 0 where
  pub status : Option Status
  pub client : Client
  pub sent : List ℕ
  pub sock_closed : Bool
  pub rest : List WriteOutcome

-- RIL_REQUEST_OEM_HOOK_RAW of include/telephony/ril.h
abbrev pub req_oem_hook_raw : ℕ
req_oem_hook_raw = 59

-- `htonl`, byte by byte as it stands in memory.
abbrev pub htonl : ℕ → List ℕ
htonl n = n / 2 ^ 24 % 256 ∷ n / 2 ^ 16 % 256 ∷ n / 2 ^ 8 % 256 ∷ n % 256 ∷ []

-- The label `error` of the function, and its counterpart in processSolicited.
unfoldable pub release : Client → ℕ → Client
release c token = record c {
  token_pool = free_token c.token_pool token;
  history = clear_req_history c.history token;
}

abbrev pub abort : Client → ℕ → List ℕ → Bool → List WriteOutcome → Sending
abort c token sent sock_closed os = record {
  status = some unknown;
  client = release c token;
  sent = sent;
  sock_closed = sock_closed;
  rest = os;
}

-- The second call of `blockingWrite`, for the parcel, after the header went out.
send_body : Client → ℕ → List ℕ → List ℕ → List WriteOutcome → Sending
unfolding release
send_body c token header body os = elim (blocking_write os (some body)) [
  | none ↦ abort c token header false os
  | some w ↦ elim w.end [
    | done ↦ record {
      status = some success;
      client = c;
      sent = header ++ w.sent;
      sock_closed = false;
      rest = w.rest;
    }
    | closed ↦ abort c token (header ++ w.sent) true w.rest
    | pending ↦ record {
      status = none;
      client = c;
      sent = header ++ w.sent;
      sock_closed = false;
      rest = w.rest;
    }
  ]
]

-- The two writes.
unfoldable pub transmit : Client → ℕ → List ℕ → List WriteOutcome → Sending
unfolding send_body
transmit c token body os = elim (blocking_write os (some (htonl (length body)))) [
  | none ↦ abort c token [] false os
  | some w ↦ elim w.end [
    | done ↦ send_body c token w.sent body w.rest
    | closed ↦ abort c token w.sent true w.rest
    | pending ↦ record {
      status = none;
      client = c;
      sent = w.sent;
      sock_closed = false;
      rest = w.rest;
    }
  ]
]

module _ (api : ParcelApi) where
  open api use {empty, write_int32, write, bytes}

  -- The parcel of a request; `len` is the number of data bytes, a `size_t`.
  unfoldable pub request_bytes : ℕ → List ℕ → List ℕ
  request_bytes token payload = bytes (
      write
        (write_int32 (write_int32 (write_int32 empty req_oem_hook_raw) token)
          (length payload % 2 ^ 32))
        payload)

  -- What follows RecordReqHistory, which returned `r`; the client has the token and the record.
  send_recorded : Client → ℕ → List ℕ → List WriteOutcome → Status → Sending
  unfolding transmit request_bytes release
  send_recorded c token payload os success = transmit c token (request_bytes token payload) os
  send_recorded c token payload os _ = abort c token [] false os

  -- What follows AllocateToken, which returned `token` and left `pool`.
  send_allocated : Client → ℕ → List ℕ → List WriteOutcome → ℕ → ℕ → Sending
  unfolding send_recorded
  send_allocated c req_id payload os token pool =
      let (r, history) = record_req_history c.history token req_id in
      if token == 0
      then record {
        status = some again;
        client = record c { token_pool = pool };
        sent = [];
        sock_closed = false;
        rest = os;
      }
      else send_recorded (record c { token_pool = pool; history = history }) token payload os r

  unfoldable pub send_oem_request_hook_raw : Client → ℕ → List ℕ → List WriteOutcome → Sending
  unfolding send_allocated
  send_oem_request_hook_raw c req_id payload os =
      let (token, pool) = allocate_token c.token_pool in
      send_allocated c req_id payload os token pool
