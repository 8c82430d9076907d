-- ===== src/Ril/Response.antt =====
-- How ril/libsecril-client/secril-client.cpp handles what the daemon sends: processRxBuffer,
-- processSolicited, processUnsolicited and FindReqHandler. The wake lock around processRxBuffer is
-- left out.
pub mod Calls
pub mod Dispatch
pub mod Invariant
pub mod Link
pub mod Answer
use android_device_samsung_a.Prelude.{
  ℕ, Bool, Option, none, some, List, [], ◌∷◌, ◌==◌, if◌then◌else◌,
}
use android_device_samsung_a.Ril.Status.{Status, success, inval, io, code}
use android_device_samsung_a.Ril.Tokens.{is_valid_token}
use android_device_samsung_a.Ril.History.{ReqHistory}
use android_device_samsung_a.Ril.Handlers.{HandlerSlot, find_handler, lookup}
use android_device_samsung_a.Ril.Parcel.{ParcelApi}
use android_device_samsung_a.Ril.Client.{Client}
use android_device_samsung_a.Ril.Request.{release}
use android_device_samsung_a.Ril.Oem.{with_handler}
use Calls.{Callbacks}

-- The first slot of the request's ID, for the first record of the token that has one.
unfoldable pub find_req_handler : List ReqHistory → List HandlerSlot → ℕ → Option HandlerSlot
find_req_handler [] table token = none
find_req_handler (s ∷ ss) table token =
    let rest = find_req_handler ss table token in
    if s.token == token
    then elim (find_handler table s.id) [ some slot ↦ some slot | none ↦ rest ]
    else rest

-- The error callback, where there is one.
unfoldable pub notify_error : Callbacks → Client → ℕ → Client
notify_error cb c err = elim c.err_cb [ none ↦ c | some f ↦ cb.on_error f c.err_cb_data err c ]

-- Deregistration behind a handler call, if `b_del_handler` is set.
unfoldable pub drop_handler : Client → ℕ → Client
unfolding with_handler
drop_handler c id =
    if c.b_del_handler == 0 then c else with_handler (record c { b_del_handler = 0 }) id none

-- The call of the handler that FindReqHandler returned.
unfoldable pub complete : Callbacks → Client → Option HandlerSlot → Option (List ℕ) → ℕ → Client
unfolding drop_handler
complete cb c none payload len = c
complete cb c (some slot) payload len = elim slot.handler [
  | none ↦ c
  | some f ↦ drop_handler (cb.on_complete f payload len c) slot.id
]

-- A missing length field is 0, and then there are no data.
abbrev pub read_payload : (api : ParcelApi) → api.Parcel → Option (List ℕ) × ℕ
read_payload api p = elim (api.read_int32 p) [
  | none ↦ (none, 0)
  | some (len, p') ↦ (if len == 0 then none else api.read_inplace p' len, len)
]

-- A solicited response that failed is reported.
unfoldable pub report : Callbacks → Status × Client → Status × Client
unfolding notify_error
report cb (success, c) = (success, c)
report cb (status, c) = (status, notify_error cb c (code status))

module _ (api : ParcelApi) (cb : Callbacks) where
  open api use {Parcel, of_bytes, read_int32}

  unfoldable pub process_unsolicited : Client → Parcel → Status × Client
  process_unsolicited c p = elim (read_int32 p) [
    | none ↦ (io, c)
    | some (resp_id, p') ↦
        let (payload, len) = read_payload api p' in
        elim (lookup c.unsol_handlers resp_id) [
          | none ↦ (success, c)
          | some f ↦ (success, cb.on_unsolicited f payload len c)
        ]
  ]

  -- From the error field on; each way out passes the label `error`.
  unfoldable pub process_valid : Client → ℕ → Parcel → Status × Client
  unfolding release notify_error complete find_req_handler
  process_valid c token p = elim (read_int32 p) [
    | none ↦ (io, release c token)
    | some (err, p') ↦
        let (payload, len) = read_payload api p' in
        let found = find_req_handler c.history c.req_handlers token in
        if err == 0
        then (success, release (complete cb c found payload len) token)
        else (success, release (notify_error cb c err) token)
  ]

  unfoldable pub process_solicited : Client → Parcel → Status × Client
  unfolding process_valid is_valid_token
  process_solicited c p = elim (read_int32 p) [
    | none ↦ (io, c)
    | some (token, p') ↦
        if is_valid_token c.token_pool token == 0 then (inval, c) else process_valid c token p'
  ]

  unfoldable pub process_rx_buffer : Client → List ℕ → Status × Client
  unfolding process_unsolicited process_solicited report
  process_rx_buffer c buffer = elim (read_int32 (of_bytes buffer)) [
    | none ↦ (io, c)
    | some (response_type, p) ↦
        if response_type == 1
        then process_unsolicited c p
        else if response_type == 0
        then report cb (process_solicited c p)
        else (inval, c)
  ]
