-- ===== src/Ril/Reader/Laws.antt =====
-- The reader thread keeps the client valid, and what it has closed when it stops.
use android_device_samsung_a.Prelude.{
  ℕ, Bool, true, false, Option, none, some, List, [], ◌∷◌, ◌==◌, Bool-cases, inl, inr,
}
use android_device_samsung_a.Prelude.Int.{negsuc}
use android_device_samsung_a.Ril.Status.{connect, code}
use android_device_samsung_a.Ril.Parcel.{ParcelApi}
use android_device_samsung_a.Ril.Client.{Client}
use android_device_samsung_a.Ril.Connect.{positive}
use android_device_samsung_a.Ril.Request.Consistent.{IsClient}
use android_device_samsung_a.Ril.Response.{process_rx_buffer}
use android_device_samsung_a.Ril.Response.Calls.{Callbacks}
use android_device_samsung_a.Ril.Response.Invariant.{
  KeepsClient, OneToken, notify_error-IsClient, process_rx_buffer-IsClient,
}
use android_device_samsung_a.Ril.Reader.{
  DrainEnd, end_of_stream, would_block, broken, Round, process_records, hang_up, read_socket,
  read_pipe, read_round, rx_reader,
}

-- Each solicited record carries a token of one bit.
abbrev pub OneTokens : ParcelApi → List (List ℕ) → Type 0
OneTokens api [] = Unit {0}
OneTokens api (r ∷ rs) = OneToken api r × OneTokens api rs

abbrev pub SocketTokens : ParcelApi → Option (List (List ℕ) × DrainEnd) → Type 0
SocketTokens api none = Unit {0}
SocketTokens api (some (records, _)) = OneTokens api records

abbrev pub RoundTokens : ParcelApi → List Round → Type 0
RoundTokens api [] = Unit {0}
RoundTokens api (r ∷ rs) = SocketTokens api r.socket × RoundTokens api rs

module _ (api : ParcelApi) (cb : Callbacks) (keeps : KeepsClient cb) where
  process_records-IsClient :
      (c : Client) (rs : List (List ℕ))
      → OneTokens api rs
      → IsClient c
      → IsClient (process_records api cb c rs)
  unfolding process_records
  process_records-IsClient c [] o v = v
  process_records-IsClient c (r ∷ rs) o v =
      process_records-IsClient (process_rx_buffer api cb c r).1 rs o.1
        (process_rx_buffer-IsClient cb keeps api c r v o.0)

  hang_up-IsClient : (c : Client) → IsClient c → IsClient (hang_up api cb c).client
  unfolding hang_up
  hang_up-IsClient c v = elim (Bool-cases (positive c.sock)) [
    | inl e ↦ rw e (
        notify_error-IsClient cb keeps (record c { sock = negsuc 0; b_connect = 0 }) (code connect)
          (record { consistent = v.consistent; reqs = v.reqs; unsols = v.unsols }))
    | inr e ↦ rw e (notify_error-IsClient cb keeps c (code connect) v)
  ]

  read_socket-IsClient :
      (c : Client) (s : Option (List (List ℕ) × DrainEnd))
      → SocketTokens api s
      → IsClient c
      → IsClient (read_socket api cb c s).client
  unfolding read_socket
  read_socket-IsClient c none o v = v
  read_socket-IsClient c (some (rs, would_block)) o v = process_records-IsClient c rs o v
  read_socket-IsClient c (some (rs, end_of_stream)) o v =
      hang_up-IsClient (process_records api cb c rs) (process_records-IsClient c rs o v)
  read_socket-IsClient c (some (rs, broken)) o v =
      hang_up-IsClient (process_records api cb c rs) (process_records-IsClient c rs o v)

  read_pipe-IsClient :
      (c : Client) (p : Option Bool) → IsClient c → IsClient (read_pipe api cb c p).client
  unfolding read_pipe
  read_pipe-IsClient c none v = v
  read_pipe-IsClient c (some true) v = record {
    consistent = v.consistent;
    reqs = v.reqs;
    unsols = v.unsols;
  }
  read_pipe-IsClient c (some false) v = v

  pub read_round-IsClient :
      (c : Client) (r : Round)
      → SocketTokens api r.socket
      → IsClient c
      → IsClient (read_round api cb c r).client
  unfolding read_round
  read_round-IsClient c r o v = elim (Bool-cases r.selected) [
    | inl e ↦ rw e (elim (Bool-cases (read_socket api cb c r.socket).stopped) [
      | inl s ↦ rw s (read_socket-IsClient c r.socket o v)
      | inr s ↦ rw s (
          read_pipe-IsClient (read_socket api cb c r.socket).client r.pipe
            (read_socket-IsClient c r.socket o v))
    ])
    | inr e ↦ rw e v
  ]

  -- The reader thread keeps the client valid, whatever the rounds bring, if the callbacks do and each
  -- solicited response carries a token of one bit.
  pub rx_reader-IsClient :
      (c : Client) (rs : List Round)
      → RoundTokens api rs
      → IsClient c
      → IsClient (rx_reader api cb c rs).client
  unfolding rx_reader
  rx_reader-IsClient c [] o v = v
  rx_reader-IsClient c (r ∷ rs) o v = elim (Bool-cases (c.b_connect == 0)) [
    | inl e ↦ rw e v
    | inr e ↦ rw e (elim (Bool-cases (read_round api cb c r).stopped) [
      | inl s ↦ rw s (read_round-IsClient c r o.0 v)
      | inr s ↦
          rw s (
            rx_reader-IsClient (read_round api cb c r).client rs o.1
              (read_round-IsClient c r o.0 v))
    ])
  ]
