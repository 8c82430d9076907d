-- ===== src/Ril/Client.antt =====
-- `RilClientPrv` of ril/libsecril-client/secril-client.cpp, and the registration functions on it.
-- A handle is `none` where the client pointer or its `prv` is NULL.
use android_device_samsung_a.Prelude.{ℕ, Bool, Option, none, some, List, if◌then◌else◌}
use android_device_samsung_a.Prelude.Int.{ℤ, negsuc}
use android_device_samsung_a.Ril.Status.{Status, success, inval}
use android_device_samsung_a.Ril.History.{ReqHistory, no_history}
use android_device_samsung_a.Ril.Handlers.{HandlerSlot, no_handlers, register}

-- `parent` and `sock_rfds` hold no state of their own. `p_rs` and `tid_reader` say whether there is
-- a record stream and a reader thread.
pub record Client : Type 0 where
  pub b_connect : ℕ
  pub sock : ℤ
  pub pipefd : ℕ × ℕ
  pub p_rs : Option ℕ
  pub token_pool : ℕ
  pub tid_reader : Option ℕ
  pub history : List ReqHistory
  pub req_handlers : List HandlerSlot
  pub unsol_handlers : List HandlerSlot
  pub err_cb : Option ℕ
  pub err_cb_data : ℕ
  pub b_del_handler : ℕ

-- What `memset` and `sock = -1` leave.
abbrev pub open_client : Client
open_client = record {
  b_connect = 0;
  sock = negsuc 0;
  pipefd = (0, 0);
  p_rs = none;
  token_pool = 0;
  tid_reader = none;
  history = no_history;
  req_handlers = no_handlers;
  unsol_handlers = no_handlers;
  err_cb = none;
  err_cb_data = 0;
  b_del_handler = 0;
}

-- OpenClient_RILD, by the outcome of its two `malloc` calls.
unfoldable pub open_client_rild : Bool → Bool → Option Client
open_client_rild malloc_client malloc_prv =
    if malloc_client then (if malloc_prv then some open_client else none) else none

unfoldable pub register_unsolicited_handler : Option Client → ℕ → Option ℕ → Status × Option Client
register_unsolicited_handler none id handler = (inval, none)
register_unsolicited_handler (some c) id handler =
    let (r, table) = register id handler c.unsol_handlers in
    (r, some (record c { unsol_handlers = table }))

unfoldable pub register_request_complete_handler :
    Option Client → ℕ → Option ℕ → Status × Option Client
register_request_complete_handler none id handler = (inval, none)
register_request_complete_handler (some c) id handler =
    let (r, table) = register id handler c.req_handlers in
    (r, some (record c { req_handlers = table }))

unfoldable pub register_error_callback : Option Client → Option ℕ → ℕ → Status × Option Client
register_error_callback none cb cb_data = (inval, none)
register_error_callback (some c) cb cb_data =
    (success, some (record c { err_cb = cb; err_cb_data = cb_data }))
