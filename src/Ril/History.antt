-- ===== src/Ril/History.antt =====
-- The request history of ril/libsecril-client/secril-client.cpp: which token stands for which
-- request. A token of 0 marks a free slot.
pub mod Count
pub mod Update
use android_device_samsung_a.Prelude.{
  ℕ, Option, none, some, List, [], ◌∷◌, ◌==◌, if◌then◌else◌, replicate,
}
use android_device_samsung_a.Ril.Status.{Status, success, resource}

pub record ReqHistory : Type 0 where
  pub token : ℕ
  pub id : ℕ

-- what `memset` leaves
abbrev pub free_slot : ReqHistory
free_slot = record { token = 0; id = 0 }

abbrev pub token_pool_size : ℕ
token_pool_size = 32

abbrev pub no_history : List ReqHistory
no_history = replicate token_pool_size free_slot

-- The loop of RecordReqHistory over the slots that are left.
unfoldable pub record_req_history : List ReqHistory → ℕ → ℕ → Status × List ReqHistory
record_req_history [] token id = (resource, [])
record_req_history (s ∷ ss) token id =
    let (r, rest) = record_req_history ss token id in
    if s.token == 0 then (success, record { token = token; id = id } ∷ ss) else (r, s ∷ rest)

unfoldable pub clear_req_history : List ReqHistory → ℕ → List ReqHistory
clear_req_history [] token = []
clear_req_history (s ∷ ss) token =
    if s.token == token then free_slot ∷ ss else s ∷ clear_req_history ss token

-- The first slot that holds the token.
unfoldable pub find_id : List ReqHistory → ℕ → Option ℕ
find_id [] token = none
find_id (s ∷ ss) token = if s.token == token then some s.id else find_id ss token
