-- ===== src/Ril/Reader.antt =====
-- RxReaderFunc of ril/libsecril-client/secril-client.cpp, the reader thread. What select(2), the
-- record stream of libcutils and read(2) return is an input: the rounds of the loop, in order.
pub mod Laws
pub mod Closing
use android_device_samsung_a.Prelude.{
  ℕ, Bool, true, false, Option, none, some, List, [], ◌∷◌, ◌++◌, ◌==◌, if◌then◌else◌,
}
use android_device_samsung_a.Prelude.Int.{ℤ, pos, negsuc}
use android_device_samsung_a.Ril.Status.{connect, code}
use android_device_samsung_a.Ril.Parcel.{ParcelApi}
use android_device_samsung_a.Ril.Client.{Client}
use android_device_samsung_a.Ril.Connect.{positive}
use android_device_samsung_a.Ril.Response.{notify_error, process_rx_buffer}
use android_device_samsung_a.Ril.Response.Calls.{Callbacks}

-- How the inner loop stops: at the end of the stream, with EAGAIN or EINTR, or at another error.
pub data DrainEnd : Type 0 where
  end_of_stream would_block broken : DrainEnd

-- One round of the outer loop. `selected` says whether select(2) returned more than 0; `socket` is
-- what the record stream gives where the socket is ready: the records, then the end; `pipe` says, where
-- the pipe is ready, whether read(2) returned more than 0.
pub record Round : Type 0 where
  pub selected : Bool
  pub socket : Option (List (List ℕ) × DrainEnd)
  pub pipe : Option Bool

-- `stopped` is the return of the thread function.
pub record Reading : Type 0 where
  pub client : Client
  pub closed : List ℤ
  pub stopped : Bool

module _ (api : ParcelApi) (cb : Callbacks) where
  -- The records of one round, in order.
  unfoldable pub process_records : Client → List (List ℕ) → Client
  process_records c [] = c
  process_records c (r ∷ rs) = process_records (process_rx_buffer api cb c r).1 rs

  -- End of stream, or a fatal error: the thread ends.
  unfoldable pub hang_up : Client → Reading
  unfolding notify_error
  hang_up c =
      if positive c.sock
      then record {
        client = notify_error cb (record c { sock = negsuc 0; b_connect = 0 }) (code connect);
        closed = c.sock ∷ [];
        stopped = true;
      }
      else record { client = notify_error cb c (code connect); closed = []; stopped = true }

  -- The socket's part of a round.
  unfoldable pub read_socket : Client → Option (List (List ℕ) × DrainEnd) → Reading
  unfolding process_records hang_up
  read_socket c none = record { client = c; closed = []; stopped = false }
  read_socket c (some (records, would_block)) = record {
    client = process_records c records;
    closed = [];
    stopped = false;
  }
  read_socket c (some (records, _)) = hang_up (process_records c records)

  -- The pipe's part: the command to close.
  unfoldable pub read_pipe : Client → Option Bool → Reading
  read_pipe c (some true) = record {
    client = record c { sock = negsuc 0; b_connect = 0 };
    closed = c.sock ∷ pos c.pipefd.0 ∷ pos c.pipefd.1 ∷ [];
    stopped = false;
  }
  read_pipe c _ = record { client = c; closed = []; stopped = false }

  unfoldable pub read_round : Client → Round → Reading
  unfolding read_socket read_pipe
  read_round c r =
      let s = read_socket c r.socket in
      let p = read_pipe s.client r.pipe in
      if r.selected
      then (if s.stopped then s else record p { closed = s.closed ++ p.closed })
      else record { client = c; closed = []; stopped = false }

  -- `while (client_prv->b_connect)`, for as many rounds as there are.
  unfoldable pub rx_reader : Client → List Round → Reading
  unfolding read_round
  rx_reader c [] = record { client = c; closed = []; stopped = c.b_connect == 0 }
  rx_reader c (r ∷ rs) =
      let now = read_round c r in
      let later = rx_reader now.client rs in
      if c.b_connect == 0
      then record { client = c; closed = []; stopped = true }
      else if now.stopped
      then now
      else record later { closed = now.closed ++ later.closed }
