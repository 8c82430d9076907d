-- ===== src/Ril/Tests.antt =====
-- Concrete runs of ril/libsecril-client/secril-client.cpp.
use android_device_samsung_a.Prelude.{
  ℕ, ◌+◌, ◌*◌, ◌/◌, ◌%◌, ◌^◌, ◌≡◌, ◌≢◌, ◌≤◌, ◌<◌, ◌↔◌, ◌⊎◌, refl, true, false, Option, none, some,
  List, [], ◌∷◌, ◌++◌, arith,
}
use native.Mathlib.Nat.{le_refl}
use android_device_samsung_a.Prelude.Int.{pos}
use android_device_samsung_a.Prelude.Bits.{bit}
use android_device_samsung_a.Ril.Tokens.{
  allocate_token, free_token, is_valid_token, deallocate_token,
}
use android_device_samsung_a.Ril.Tokens.Alloc.{Allocates, allocate_token_lem}
use android_device_samsung_a.Ril.Tokens.Release.{
  free_token-allocate_token, is_valid_token_iff, deallocate_token-ne-free_token,
}
use android_device_samsung_a.Ril.History.{record_req_history}
use android_device_samsung_a.Ril.Handlers.{no_handlers, register, find_handler}
use android_device_samsung_a.Ril.Handlers.Register.{Registers, register_lem}
use android_device_samsung_a.Ril.Parcel.{ParcelApi}
use android_device_samsung_a.Ril.Client.{Client, open_client}
use android_device_samsung_a.Ril.Write.{done, wrote, interrupted, write_from, blocking_write}
use android_device_samsung_a.Ril.Write.Laws.{write_from-sent, write_from-done}
use android_device_samsung_a.Ril.Request.{send_oem_request_hook_raw, release}
use android_device_samsung_a.Ril.Request.Consistent.{IsConsistent, IsClient}
use android_device_samsung_a.Ril.Request.Send.{Sends, send_lem}
use android_device_samsung_a.Ril.Oem.{
  reply_of, with_handler, request, get_mute, set_call_audio_path, set_call_volume,
}
use android_device_samsung_a.Ril.Oem.Laws.{IsHandle, request-IsClient, send-IsClient}
use android_device_samsung_a.Audio.Routes.{volume_sound_type, incall_audio_path}
use android_device_samsung_a.Audio.Modem.Codes.{type_code, path_code, set_call_audio_path-incall}
use android_device_samsung_a.Ril.Response.{
  process_solicited, process_rx_buffer, process_valid, complete, drop_handler, find_req_handler,
  report,
}
use android_device_samsung_a.Ril.Response.Calls.{Callbacks}
use android_device_samsung_a.Ril.Response.Invariant.{KeepsClient}
use android_device_samsung_a.Ril.Response.Answer.{process_solicited_compound}
use android_device_samsung_a.Ril.Connect.{ConnectEnv, connect_rild}
use android_device_samsung_a.Ril.Connect.Laws.{ConnectOutcome, connect_rild_lem}
use android_device_samsung_a.Ril.Reader.{Round, would_block, end_of_stream, read_round, rx_reader}
use android_device_samsung_a.Ril.Reader.Laws.{rx_reader-IsClient}
use android_device_samsung_a.Ril.Reader.Closing.{Closes, hung_up, rx_reader-Closes}
use android_device_samsung_a.Ril.Response.Link.{KeepsLink}
use android_device_samsung_a.Ril.Session.{
  Reach, opens, connects, ask_mute, message, reads, here, next, Reach-IsHandle,
}
use android_device_samsung_a.Ril.Connect.Handles.{open_client-IsClient}

-- A parcel as its bytes, integers in little endian.
abbrev le32 : ℕ → List ℕ
le32 n = n % 256 ∷ n / 2 ^ 8 % 256 ∷ n / 2 ^ 16 % 256 ∷ n / 2 ^ 24 % 256 ∷ []

abbrev take_int32 : List ℕ → Option (ℕ × List ℕ)
take_int32 (a ∷ b ∷ c ∷ d ∷ rest) = some (a + 256 * b + 2 ^ 16 * c + 2 ^ 24 * d, rest)
take_int32 _ = none

abbrev bytes_parcel : ParcelApi
bytes_parcel = record {
  Parcel = List ℕ;
  empty = [];
  write_int32 = λ p n. p ++ le32 n;
  write = λ p bs. p ++ bs;
  bytes = λ p. p;
  of_bytes = λ bs. bs;
  read_int32 = take_int32;
  read_inplace = λ p n. some p;
}

-- Callbacks that do nothing to the client.
abbrev quiet : Callbacks
quiet = record {
  on_complete = λ f d n c. c;
  on_unsolicited = λ f d n c. c;
  on_error = λ f a e c. c;
}

quiet-KeepsClient : KeepsClient quiet
quiet-KeepsClient = record {
  complete = λ f d n c v. v;
  unsolicited = λ f d n c v. v;
  error = λ f a e c v. v;
}

abbrev connected : Client
connected = record open_client { sock = pos 5; b_connect = 1; pipefd = (6, 7) }

connected-IsClient : IsClient connected
connected-IsClient = record {
  consistent = open_client-IsClient.consistent;
  reqs = open_client-IsClient.reqs;
  unsols = open_client-IsClient.unsols;
}

allocate_token_lem_example :
    ((◌≡◌ {A = ℕ} 7 0xFFFF_FFFF) × (allocate_token 7 ≡ (0, 7)))
    ⊎ Allocates 7 (allocate_token 7).0 (allocate_token 7).1
allocate_token_lem_example = allocate_token_lem 7 (omega arith)

free_token-allocate_token_example : free_token (allocate_token 11).1 (allocate_token 11).0 ≡ 11
free_token-allocate_token_example = free_token-allocate_token 11 (omega arith)

register_lem_example : Registers 106 (some 9) no_handlers (register 106 (some 9) no_handlers)
register_lem_example =
    register_lem 106 no_handlers (λ e. omega arith) open_client-IsClient.reqs (some 9)

is_valid_token_iff_example :
    (is_valid_token 7 5 ≡ 1) ↔ ((◌≢◌ {A = ℕ} 5 0) × ((i : ℕ) → i < 32 → bit 5 i ≤ bit 7 i))
is_valid_token_iff_example = is_valid_token_iff 7 5 (omega arith)

deallocate_token-ne-free_token_example :
    (deallocate_token 7 1 ≡ 0) × (deallocate_token 7 1 ≢ free_token 7 1)
deallocate_token-ne-free_token_example =
    deallocate_token-ne-free_token 7 1 2 (omega arith) (omega arith) (omega arith)
      (λ e. omega arith) refl refl

write_from-done_example :
    (write_from (wrote 1 ∷ interrupted ∷ wrote 2 ∷ []) (8 ∷ 5 ∷ []) 0).end ≡ done
write_from-done_example =
    write_from-done (wrote 1 ∷ interrupted ∷ wrote 2 ∷ []) (8 ∷ 5 ∷ []) 0 (omega arith)

write_from-sent_example : (write_from (wrote 1 ∷ wrote 1 ∷ []) (8 ∷ 5 ∷ []) 0).sent ≡ 8 ∷ 5 ∷ []
unfolding write_from
write_from-sent_example = write_from-sent (wrote 1 ∷ wrote 1 ∷ []) (8 ∷ 5 ∷ []) 0 refl

-- The command that asks for the mute state, its write still waiting.
asked : Client
asked = (request bytes_parcel 106 (some 9) (8 ∷ 12 ∷ 0 ∷ 4 ∷ []) [] connected).client

asked-IsClient : IsClient asked
unfolding asked
asked-IsClient =
    request-IsClient bytes_parcel 106 (some 9) (8 ∷ 12 ∷ 0 ∷ 4 ∷ []) [] connected (λ e. omega arith)
      connected-IsClient

send_lem_example :
    Sends bytes_parcel asked 59
      (1 ∷ [])
      (send_oem_request_hook_raw bytes_parcel asked 59 (1 ∷ []) [])
send_lem_example = send_lem bytes_parcel asked 59 (1 ∷ []) [] asked-IsClient.consistent

abbrev no_pipe : ConnectEnv
no_pipe = record {
  socket = pos 5;
  socket_nonblock = true;
  stream = some 1;
  pipe_fds = none;
  pipe_nonblock = true;
  thread = none;
}

connect_rild_lem_example :
    ConnectOutcome open_client no_pipe (connect_rild (some open_client) no_pipe)
connect_rild_lem_example = connect_rild_lem open_client no_pipe

abbrev close_round : Round
close_round = record { selected = true; socket = none; pipe = some true }

abbrev quiet_round : Round
quiet_round = record { selected = true; socket = some ([], would_block); pipe = none }

abbrev answer_bytes : List ℕ
answer_bytes = le32 0 ++ le32 1 ++ le32 0 ++ le32 1 ++ 3 ∷ []

abbrev lost_round : Round
lost_round = record { selected = true; socket = some ([], end_of_stream); pipe = none }

abbrev answer_round : Round
answer_round = record {
  selected = true;
  socket = some (answer_bytes ∷ [], would_block);
  pipe = none;
}

rx_reader-IsClient_example :
    IsClient
      (rx_reader bytes_parcel quiet asked (answer_round ∷ quiet_round ∷ close_round ∷ [])).client
rx_reader-IsClient_example =
    rx_reader-IsClient bytes_parcel quiet quiet-KeepsClient asked
      (answer_round ∷ quiet_round ∷ close_round ∷ []) (((0, omega arith, refl), tt), (tt, (tt, tt)))
      asked-IsClient

quiet-KeepsLink : KeepsLink quiet
quiet-KeepsLink = record {
  complete = λ f d n c. (refl, refl, refl);
  unsolicited = λ f d n c. (refl, refl, refl);
  error = λ f a e c. (refl, refl, refl);
}

rx_reader-Closes_example :
    Closes connected hung_up
      (rx_reader bytes_parcel quiet connected (answer_round ∷ lost_round ∷ close_round ∷ []))
rx_reader-Closes_example =
    rx_reader-Closes bytes_parcel quiet quiet-KeepsLink connected
      (answer_round ∷ lost_round ∷ close_round ∷ []) refl (λ e. omega (arith, e))

-- Two requests in flight, under the tokens 1 and 2.
asked_twice : Client
unfolding asked
asked_twice = (send_oem_request_hook_raw bytes_parcel asked 59 (1 ∷ []) []).client

asked_twice-IsConsistent : IsConsistent asked_twice
unfolding asked_twice
asked_twice-IsConsistent =
    (send-IsClient bytes_parcel 59 (1 ∷ []) [] asked asked-IsClient).consistent

process_solicited_compound_example :
    ¬ IsConsistent (process_solicited bytes_parcel quiet asked_twice (le32 3 ++ le32 2)).1
unfolding asked_twice request send_oem_request_hook_raw allocate_token record_req_history
    blocking_write register
process_solicited_compound_example =
    process_solicited_compound bytes_parcel quiet asked_twice (le32 3 ++ le32 2) 3 0 1 2 (le32 2) []
      asked_twice-IsConsistent (omega arith) (omega arith) (omega arith) (λ e. omega arith) refl
      refl (λ n l. le_refl (bit 3 n)) refl (λ e. omega arith) refl refl

-- A client is opened and connected, asks for the mute state, gets the answer, and loses the connection.
abbrev all_succeed : ConnectEnv
all_succeed = record {
  socket = pos 5;
  socket_nonblock = true;
  stream = some 1;
  pipe_fds = some (6, 7);
  pipe_nonblock = true;
  thread = some 9;
}

abbrev running : Client
running = record open_client {
  sock = pos 5;
  b_connect = 1;
  p_rs = some 1;
  pipefd = (6, 7);
  tid_reader = some 9;
}

-- Behind the request.
waiting_client : Client
waiting_client =
    (request bytes_parcel 106 (some 9) (8 ∷ 12 ∷ 0 ∷ 4 ∷ []) []
      (record running { b_del_handler = 1 })).client

asks : Reach bytes_parcel quiet none (some waiting_client)
unfolding waiting_client connect_rild get_mute
asks =
    next (next (next here opens) (connects (some open_client) all_succeed))
      (ask_mute (some running) (some 9) [])

still_connected : (process_rx_buffer bytes_parcel quiet waiting_client answer_bytes).1.b_connect ≡ 1
unfolding waiting_client request send_oem_request_hook_raw allocate_token record_req_history
    blocking_write process_rx_buffer register process_solicited process_valid release complete
    drop_handler is_valid_token find_req_handler find_handler with_handler report
still_connected = refl

Reach-IsHandle_example : IsHandle (
    some
      (read_round bytes_parcel quiet
        (process_rx_buffer bytes_parcel quiet waiting_client answer_bytes).1
        lost_round).client)
Reach-IsHandle_example = Reach-IsHandle bytes_parcel quiet quiet-KeepsClient tt (
    next (next asks (message waiting_client answer_bytes (0, omega arith, refl))) (
      reads (process_rx_buffer bytes_parcel quiet waiting_client answer_bytes).1 lost_round
        (λ e. omega (arith, still_connected, e)) tt))

set_call_audio_path-incall_example :
    (set_call_volume bytes_parcel (some connected) (volume_sound_type 0x20) 4 []
      ≡ reply_of (
          request bytes_parcel 101 none
            (0x08 ∷ 0x03 ∷ 0x00 ∷ 0x06 ∷ type_code 0x20 ∷ (4 % 256) ∷ [])
            []
            connected))
    × (set_call_audio_path bytes_parcel (some connected) (incall_audio_path false 0x20) []
        ≡ reply_of (
            request bytes_parcel 102 none
              (0x08 ∷ 0x05 ∷ 0x00 ∷ 0x06 ∷ path_code false 0x20 ∷ 0 ∷ [])
              []
              connected))
set_call_audio_path-incall_example =
    set_call_audio_path-incall bytes_parcel connected false 0x20 4 [] refl
