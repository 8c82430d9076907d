-- ===== src/Ril/Connect.antt =====
-- Connect_RILD, isConnected_RILD, Disconnect_RILD and CloseClient_RILD of
-- ril/libsecril-client/secril-client.cpp. What the system calls return is an input; each function
-- says which descriptors it opened and closed.
pub mod Laws
pub mod Handles
use android_device_samsung_a.Prelude.{
  ℕ, zero, Bool, true, false, Option, none, some, List, [], ◌∷◌, ◌==◌, if◌then◌else◌,
}
use android_device_samsung_a.Prelude.Int.{ℤ, pos, negsuc}
use android_device_samsung_a.Ril.Status.{Status, success, inval, connect, io, code}
use android_device_samsung_a.Ril.Client.{Client, open_client}
use android_device_samsung_a.Ril.Write.{WriteOutcome, wrote, interrupted, refused}

-- `socket_loopback_client`, `fcntl` on the socket, `record_stream_new`, `pipe`, `fcntl` on the pipe and
-- `pthread_create`: each in turn, as far as the function gets.
pub record ConnectEnv : Type 0 where
  pub socket : ℤ
  pub socket_nonblock : Bool
  pub stream : Option ℕ
  pub pipe_fds : Option (ℕ × ℕ)
  pub pipe_nonblock : Bool
  pub thread : Option ℕ

pub record Connecting : Type 0 where
  pub status : Status
  pub handle : Option Client
  pub opened : List ℕ
  pub closed : List ℕ

-- With the pipe open.
connect_pipe : Client → ConnectEnv → ℕ → ℕ → ℕ → Connecting
connect_pipe c env s r w =
    let fds = s ∷ r ∷ w ∷ [] in
    if env.pipe_nonblock
    then elim env.thread [
      | none ↦ record { status = connect; handle = some open_client; opened = fds; closed = fds }
      | some tid ↦ record {
        status = success;
        handle = some (record c { tid_reader = some tid });
        opened = fds;
        closed = [];
      }
    ]
    else record { status = io; handle = some c; opened = fds; closed = fds }

-- With the socket open, `b_connect` set.
connect_socket : Client → ConnectEnv → ℕ → Connecting
unfolding connect_pipe
connect_socket c env s =
    if env.socket_nonblock
    then elim env.pipe_fds [
      | none ↦ record {
        status = io;
        handle = some (record c { p_rs = env.stream });
        opened = s ∷ [];
        closed = s ∷ [];
      }
      | some (r, w) ↦ connect_pipe (record c { p_rs = env.stream; pipefd = (r, w) }) env s r w
    ]
    else record { status = io; handle = some c; opened = s ∷ []; closed = s ∷ [] }

unfoldable pub connect_rild : Option Client → ConnectEnv → Connecting
unfolding connect_socket
connect_rild none env = record { status = inval; handle = none; opened = []; closed = [] }
connect_rild (some c) env = elim env.socket [
  | pos s ↦ connect_socket (record c { sock = pos s; b_connect = 1 }) env s
  | negsuc e ↦ record {
    status = connect;
    handle = some (record c { sock = negsuc e });
    opened = [];
    closed = [];
  }
]

unfoldable pub is_connected_rild : Option Client → ℕ
is_connected_rild none = code inval
is_connected_rild (some c) = if c.b_connect == 1 then 1 else 0

-- The loop that writes "close" to the pipe: whether it has ended.
unfoldable pub write_close : List WriteOutcome → Bool
write_close [] = false
write_close (wrote n ∷ os) = true
write_close (interrupted ∷ os) = write_close os
write_close (refused ∷ os) = true

-- `sock > 0`
abbrev pub positive : ℤ → Bool
positive (pos n) = if n == 0 then false else true
positive (negsuc n) = false

-- What Disconnect_RILD has done up to `pthread_join`: `none` where it still waits in write(2). The
-- second component says whether it goes on to wait for the reader thread.
unfoldable pub disconnect_rild :
    Option Client → List WriteOutcome → Option (Status × Bool × Option Client)
unfolding write_close
disconnect_rild none os = some (inval, false, none)
disconnect_rild (some c) os = elim c.sock [
  | negsuc zero ↦ some (success, false, some c)
  | _ ↦
      if positive c.sock
      then (if write_close os
          then some (success, true, some (record c { b_connect = 0 }))
          else none)
      else some (success, true, some (record c { b_connect = 0 }))
]

-- The client and its handle are freed once Disconnect_RILD has returned, whatever it returned.
unfoldable pub close_client_rild :
    Option Client → List WriteOutcome → Option (Status × Option Client)
unfolding disconnect_rild
close_client_rild none os = some (inval, none)
close_client_rild (some c) os = elim (disconnect_rild (some c) os) [
  | none ↦ none
  | some _ ↦ some (success, none)
]
