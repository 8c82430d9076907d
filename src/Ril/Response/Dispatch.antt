-- ===== src/Ril/Response/Dispatch.antt =====
-- Which handler a response reaches.
use android_device_samsung_a.Prelude.{
  ℕ, ◌≤◌, ◌<◌, ◌^◌, ◌≡◌, refl, Option, none, some, List, [], ◌∷◌, arith,
}
use android_device_samsung_a.Prelude.Bits.{bit-le-one}
use android_device_samsung_a.Ril.History.{ReqHistory, find_id}
use android_device_samsung_a.Ril.History.Count.{count}
use android_device_samsung_a.Ril.Handlers.{HandlerSlot, find_handler}
use android_device_samsung_a.Ril.Client.{Client}
use android_device_samsung_a.Ril.Request.Consistent.{IsConsistent}
use android_device_samsung_a.Ril.Response.{find_req_handler}

-- The request that a token stands for, if the history knows it, then that request's handler slot.
abbrev pub handler_for : List ReqHistory → List HandlerSlot → ℕ → Option HandlerSlot
handler_for h table token = elim (find_id h token) [ none ↦ none | some id ↦ find_handler table id ]

find_req_handler_unknown :
    (h : List ReqHistory) (table : List HandlerSlot) (t : ℕ)
    → count t h ≡ 0
    → find_req_handler h table t ≡ none
unfolding find_req_handler
find_req_handler_unknown [] table t e = refl
find_req_handler_unknown (s ∷ ss) table t e = ground (arith, find_req_handler_unknown ss table t)

-- FindReqHandler goes by the one record that the token has.
pub find_req_handler_once :
    (h : List ReqHistory) (table : List HandlerSlot) (t : ℕ)
    → count t h ≤ 1
    → find_req_handler h table t ≡ handler_for h table t
unfolding find_req_handler find_id
find_req_handler_once [] table t e = refl
find_req_handler_once (s ∷ ss) table t e =
    ground (arith, find_req_handler_once ss table t, find_req_handler_unknown ss table t)

pub find_req_handler-handler_for :
    (c : Client) (k : ℕ)
    → k < 32
    → IsConsistent c
    → find_req_handler c.history c.req_handlers (2 ^ k)
      ≡ handler_for c.history c.req_handlers (2 ^ k)
find_req_handler-handler_for c k l m =
    find_req_handler_once c.history c.req_handlers (2 ^ k)
      (omega (arith, m.in_use k l, bit-le-one c.token_pool k))
