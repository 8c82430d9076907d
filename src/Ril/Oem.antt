-- ===== src/Ril/Oem.antt =====
-- The sound commands of ril/libsecril-client/secril-client.cpp: what each checks, and the bytes that it
-- sends. The enums of secril-client.h are their values, and a `char` is a byte pattern.
pub mod Codes
pub mod Laws
pub mod Audio
use android_device_samsung_a.Prelude.{
  ℕ, ◌%◌, Bool, true, false, not, Option, none, some, List, [], ◌∷◌, ◌==◌, leb, if◌then◌else◌,
}
use android_device_samsung_a.Prelude.Int.{is_neg}
use android_device_samsung_a.Ril.Status.{Status, success, inval, connect}
use android_device_samsung_a.Ril.Handlers.{register}
use android_device_samsung_a.Ril.Parcel.{ParcelApi}
use android_device_samsung_a.Ril.Client.{Client}
use android_device_samsung_a.Ril.Write.{WriteOutcome}
use android_device_samsung_a.Ril.Request.{Sending, send_oem_request_hook_raw, req_oem_hook_raw}
use Codes.{
  is_valid_sound_type, is_valid_audio_path, is_valid_sound_clock_condition,
  is_valid_call_rec_condition, is_valid_mute_condition, convert_sound_type, convert_audio_path,
}

-- What a command returns: as `Sending`, with the handle for the client.
pub record Reply : Type 0 where
  pub status : Option Status
  pub handle : Option Client
  pub sent : List ℕ
  pub sock_closed : Bool
  pub rest : List WriteOutcome

abbrev pub reply_of : Sending → Reply
reply_of s = record {
  status = s.status;
  handle = some s.client;
  sent = s.sent;
  sock_closed = s.sock_closed;
  rest = s.rest;
}

abbrev pub refuse : Status → Option Client → List WriteOutcome → Reply
refuse status handle os = record {
  status = some status;
  handle = handle;
  sent = [];
  sock_closed = false;
  rest = os;
}

-- The checks at the head of each command: the handle, the socket, then the argument.
unfoldable pub checked : Option Client → Bool → List WriteOutcome → (Client → Sending) → Reply
checked none valid os command = refuse inval none os
checked (some c) valid os command =
    if is_neg c.sock
    then refuse connect (some c) os
    else if valid
    then reply_of (command c)
    else refuse inval (some c) os

-- `RegisterRequestCompleteHandler` on a client that is there, its result dropped.
unfoldable pub with_handler : Client → ℕ → Option ℕ → Client
with_handler c id handler = record c { req_handlers = (register id handler c.req_handlers).1 }

-- `if (ret != RIL_CLIENT_ERR_SUCCESS)` deregister.
unfoldable pub after_send : ℕ → Sending → Sending
unfolding with_handler
after_send id s = elim s.status [
  | none ↦ s
  | some success ↦ s
  | some _ ↦ record s { client = with_handler s.client id none }
]

module _ (api : ParcelApi) where
  -- The tail that the commands share: register the handler, send, deregister on failure.
  unfoldable pub request : ℕ → Option ℕ → List ℕ → List WriteOutcome → Client → Sending
  unfolding with_handler after_send
  request id handler payload os c =
      after_send id (send_oem_request_hook_raw api (with_handler c id handler) id payload os)

  unfoldable pub set_call_volume : Option Client → ℕ → ℕ → List WriteOutcome → Reply
  unfolding checked request
  set_call_volume handle type vol_level os = checked handle (is_valid_sound_type type) os (
      request 101 none
        (0x08 ∷ 0x03 ∷ 0x00 ∷ 0x06 ∷ convert_sound_type type ∷ (vol_level % 256) ∷ []) os)

  -- The sixth byte keeps the 0 of the initialiser.
  unfoldable pub set_call_audio_path : Option Client → ℕ → List WriteOutcome → Reply
  unfolding checked request
  set_call_audio_path handle path os =
      checked handle (is_valid_audio_path path) os
        (request 102 none (0x08 ∷ 0x05 ∷ 0x00 ∷ 0x06 ∷ convert_audio_path path ∷ 0 ∷ []) os)

  unfoldable pub set_call_clock_sync : Option Client → ℕ → List WriteOutcome → Reply
  unfolding checked request
  set_call_clock_sync handle condition os =
      checked handle (is_valid_sound_clock_condition condition) os
        (request 103 none (0x08 ∷ 0x0A ∷ 0x00 ∷ 0x05 ∷ (condition % 256) ∷ []) os)

  unfoldable pub set_video_call_clock_sync : Option Client → ℕ → List WriteOutcome → Reply
  unfolding checked request
  set_video_call_clock_sync handle condition os =
      checked handle (is_valid_sound_clock_condition condition) os
        (request 107 none (0x08 ∷ 0x07 ∷ 0x00 ∷ 0x05 ∷ (condition % 256) ∷ []) os)

  unfoldable pub set_call_record : Option Client → ℕ → List WriteOutcome → Reply
  unfolding checked request
  set_call_record handle condition os =
      checked handle (is_valid_call_rec_condition condition) os
        (request 104 none (0x08 ∷ 0x09 ∷ 0x00 ∷ 0x05 ∷ (condition % 256) ∷ []) os)

  unfoldable pub set_mute : Option Client → ℕ → List WriteOutcome → Reply
  unfolding checked request
  set_mute handle condition os =
      checked handle (is_valid_mute_condition condition) os
        (request 105 none (0x08 ∷ 0x0B ∷ 0x00 ∷ 0x05 ∷ (condition % 256) ∷ []) os)

  unfoldable pub get_mute : Option Client → Option ℕ → List WriteOutcome → Reply
  unfolding checked request
  get_mute handle handler os =
      checked handle true os λ c.
        request 106 handler (0x08 ∷ 0x0C ∷ 0x00 ∷ 0x04 ∷ []) os (record c { b_del_handler = 1 })

  unfoldable pub invoke_oem_request_hook_raw : Option Client → List ℕ → List WriteOutcome → Reply
  unfolding checked
  invoke_oem_request_hook_raw handle payload os =
      checked handle true os λ c. send_oem_request_hook_raw api c req_oem_hook_raw payload os
