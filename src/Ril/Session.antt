-- ===== src/Ril/Session.antt =====
-- A program's use of ril/libsecril-client/secril-client.cpp: its calls, from OpenClient_RILD to
-- CloseClient_RILD, the daemon's messages and the rounds of the reader thread, in any order. The functions are those of the modules beside this one.
use android_device_samsung_a.Prelude.{
  ℕ, ◌≡◌, ◌≢◌, Bool, true, Option, none, some, List, [], ◌∷◌, arith,
}
use android_device_samsung_a.Ril.Request.{send_oem_request_hook_raw, req_oem_hook_raw}
use android_device_samsung_a.Ril.Parcel.{ParcelApi}
use android_device_samsung_a.Ril.Client.{
  Client, open_client, register_unsolicited_handler, register_request_complete_handler,
  register_error_callback,
}
use android_device_samsung_a.Ril.Write.{WriteOutcome}
use android_device_samsung_a.Ril.Oem.{
  set_call_volume, set_call_audio_path, set_call_clock_sync, set_video_call_clock_sync,
  set_call_record, set_mute, get_mute, invoke_oem_request_hook_raw, request, checked,
}
use android_device_samsung_a.Ril.Oem.Laws.{
  IsHandle, checked-IsHandle, request-IsClient, send-IsClient, register-IsTable,
}
use android_device_samsung_a.Ril.Connect.{
  connect_rild, disconnect_rild, close_client_rild, ConnectEnv,
}
use android_device_samsung_a.Ril.Connect.Handles.{
  open_client-IsClient, connect_rild-IsHandle, disconnect_rild-IsHandle, close_client_rild-IsHandle,
}
use android_device_samsung_a.Ril.Reader.{Round, read_round}
use android_device_samsung_a.Ril.Reader.Laws.{SocketTokens, read_round-IsClient}
use android_device_samsung_a.Ril.Status.{Status}
use android_device_samsung_a.Ril.Response.{process_rx_buffer}
use android_device_samsung_a.Ril.Response.Calls.{Callbacks}
use android_device_samsung_a.Ril.Response.Invariant.{
  KeepsClient, OneToken, process_rx_buffer-IsClient,
}

module _ (api : ParcelApi) (cb : Callbacks) where
  -- One call on the handle, one message of the daemon, or one round of the reader thread. `none` is a handle
  -- that is not there or, behind CloseClient_RILD, freed. A call of CloseClient_RILD or Disconnect_RILD that
  -- still waits in write(2) is no step yet.
  pub data Step : Option Client → Option Client → Type 0 where
    volume :
        (h : Option Client) (type level : ℕ) (os : List WriteOutcome)
        → Step h (set_call_volume api h type level os).handle
    audio_path :
        (h : Option Client) (path : ℕ) (os : List WriteOutcome)
        → Step h (set_call_audio_path api h path os).handle
    clock :
        (h : Option Client) (condition : ℕ) (os : List WriteOutcome)
        → Step h (set_call_clock_sync api h condition os).handle
    video_clock :
        (h : Option Client) (condition : ℕ) (os : List WriteOutcome)
        → Step h (set_video_call_clock_sync api h condition os).handle
    call_record :
        (h : Option Client) (condition : ℕ) (os : List WriteOutcome)
        → Step h (set_call_record api h condition os).handle
    mute :
        (h : Option Client) (condition : ℕ) (os : List WriteOutcome)
        → Step h (set_mute api h condition os).handle
    ask_mute :
        (h : Option Client) (f : Option ℕ) (os : List WriteOutcome)
        → Step h (get_mute api h f os).handle
    raw :
        (h : Option Client) (payload : List ℕ) (os : List WriteOutcome)
        → Step h (invoke_oem_request_hook_raw api h payload os).handle
    on_request :
        (h : Option Client) (id : ℕ) (f : Option ℕ)
        → id ≢ 0
        → Step h (register_request_complete_handler h id f).1
    on_unsolicited :
        (h : Option Client) (id : ℕ) (f : Option ℕ)
        → id ≢ 0
        → Step h (register_unsolicited_handler h id f).1
    opens : Step none (some open_client)
    connects : (h : Option Client) (env : ConnectEnv) → Step h (connect_rild h env).handle
    disconnects :
        (h k : Option Client) (os : List WriteOutcome) (status : Status) (joins : Bool)
        → disconnect_rild h os ≡ some (status, joins, k)
        → Step h k
    closes :
        (h k : Option Client) (os : List WriteOutcome) (status : Status)
        → close_client_rild h os ≡ some (status, k)
        → Step h k
    reads :
        (c : Client) (r : Round)
        → c.b_connect ≢ 0
        → SocketTokens api r.socket
        → Step (some c) (some (read_round api cb c r).client)
    on_error : (h : Option Client) (f : Option ℕ) (a : ℕ) → Step h (register_error_callback h f a).1
    message :
        (c : Client) (buffer : List ℕ)
        → OneToken api buffer
        → Step (some c) (some (process_rx_buffer api cb c buffer).1)

  pub data Reach (h : Option Client) : Option Client → Type 0 where
    here : Reach h h
    next : {g k : Option Client} → Reach h g → Step g k → Reach h k

  module _ (keeps : KeepsClient cb) where
    set-IsHandle :
        (h : Option Client) (valid : Bool) (os : List WriteOutcome) (id : ℕ) (payload : List ℕ)
        → id ≢ 0
        → IsHandle h
        → IsHandle (checked h valid os (request api id none payload os)).handle
    set-IsHandle h valid os id payload nz v =
        checked-IsHandle h valid os (request api id none payload os)
          (λ c w. request-IsClient api id none payload os c nz w) v

    Step-IsHandle : {h k : Option Client} → Step h k → IsHandle h → IsHandle k
    unfolding set_call_volume set_call_audio_path set_call_clock_sync set_video_call_clock_sync
        set_call_record set_mute get_mute invoke_oem_request_hook_raw
        register_request_complete_handler register_unsolicited_handler register_error_callback
    Step-IsHandle (volume h type level os) v = set-IsHandle h _ os 101 _ (λ e. omega arith) v
    Step-IsHandle (audio_path h path os) v = set-IsHandle h _ os 102 _ (λ e. omega arith) v
    Step-IsHandle (clock h condition os) v = set-IsHandle h _ os 103 _ (λ e. omega arith) v
    Step-IsHandle (video_clock h condition os) v = set-IsHandle h _ os 107 _ (λ e. omega arith) v
    Step-IsHandle (call_record h condition os) v = set-IsHandle h _ os 104 _ (λ e. omega arith) v
    Step-IsHandle (mute h condition os) v = set-IsHandle h _ os 105 _ (λ e. omega arith) v
    Step-IsHandle (ask_mute h f os) v =
        checked-IsHandle h true os
          (λ c.
            request api 106 f (0x08 ∷ 0x0C ∷ 0x00 ∷ 0x04 ∷ []) os (record c { b_del_handler = 1 }))
          (λ c w.
            request-IsClient api 106 f (0x08 ∷ 0x0C ∷ 0x00 ∷ 0x04 ∷ []) os
              (record c { b_del_handler = 1 }) (λ e. omega arith)
              (record { consistent = w.consistent; reqs = w.reqs; unsols = w.unsols }))
          v
    Step-IsHandle (raw h payload os) v =
        checked-IsHandle h true os
          (λ c. send_oem_request_hook_raw api c req_oem_hook_raw payload os)
          (λ c w. send-IsClient api req_oem_hook_raw payload os c w) v
    Step-IsHandle (on_request none id f nz) v = v
    Step-IsHandle (on_request (some c) id f nz) v = record {
      consistent = v.consistent;
      reqs = register-IsTable id f c.req_handlers nz v.reqs;
      unsols = v.unsols;
    }
    Step-IsHandle (on_unsolicited none id f nz) v = v
    Step-IsHandle (on_unsolicited (some c) id f nz) v = record {
      consistent = v.consistent;
      reqs = v.reqs;
      unsols = register-IsTable id f c.unsol_handlers nz v.unsols;
    }
    Step-IsHandle (on_error none f a) v = v
    Step-IsHandle (on_error (some c) f a) v = record {
      consistent = v.consistent;
      reqs = v.reqs;
      unsols = v.unsols;
    }
    Step-IsHandle opens v = open_client-IsClient
    Step-IsHandle (connects h env) v = connect_rild-IsHandle h env v
    Step-IsHandle (disconnects h k os status joins e) v =
        disconnect_rild-IsHandle h k os status joins e v
    Step-IsHandle (closes h k os status e) v = close_client_rild-IsHandle h k os status e
    Step-IsHandle (reads c r connected one) v = read_round-IsClient api cb keeps c r one v
    Step-IsHandle (message c buffer one) v = process_rx_buffer-IsClient cb keeps api c buffer v one

    -- Every client that a program can reach from a valid handle, by opening, connecting, commands and
    -- registrations with request IDs other than 0, messages and rounds of the reader thread whose solicited
    -- tokens are one bit, disconnecting and closing, in any order, is valid if the callbacks keep a valid
    -- client valid: its tokens in use are those of its history, each in one slot, and no ID is registered twice.
    pub Reach-IsHandle : {h k : Option Client} → IsHandle h → Reach h k → IsHandle k
    Reach-IsHandle v here = v
    Reach-IsHandle v (next r s) = Step-IsHandle s (Reach-IsHandle v r)
