-- ===== src/Ril/Reader/Closing.antt =====
-- Which descriptors the reader thread of ril/libsecril-client/secril-client.cpp closes.
use android_device_samsung_a.Prelude.{
  ℕ, ◌≡◌, ◌≢◌, ◌∙◌, refl, sym, ap, Bool, true, false, Option, none, some, List, [], ◌∷◌, ◌++◌,
  if◌then◌else◌, Bool-cases, inl, inr, ==_ne, arith,
}
use android_device_samsung_a.Prelude.Int.{pos, negsuc}
use android_device_samsung_a.Ril.Status.{connect, code}
use android_device_samsung_a.Ril.Parcel.{ParcelApi}
use android_device_samsung_a.Ril.Client.{Client}
use android_device_samsung_a.Ril.Connect.{positive}
use android_device_samsung_a.Ril.Response.{notify_error, process_rx_buffer}
use android_device_samsung_a.Ril.Response.Calls.{Callbacks}
use android_device_samsung_a.Ril.Reader.{
  DrainEnd, end_of_stream, would_block, broken, Round, Reading, process_records, hang_up,
  read_socket, read_pipe, read_round, rx_reader,
}
use android_device_samsung_a.Ril.Response.Link.{
  SameLink, KeepsLink, then_SameLink, notify_error-SameLink, process_rx_buffer-SameLink,
}

-- How a sequence of rounds ends the thread, if it does.
pub data Ending : Type 0 where
  still_reads hung_up told_to_close : Ending

abbrev pub socket_ends : Option (List (List ℕ) × DrainEnd) → Bool
socket_ends none = false
socket_ends (some (records, would_block)) = false
socket_ends (some (records, _)) = true

abbrev pub is_command : Option Bool → Bool
is_command (some true) = true
is_command _ = false

-- The first round that select(2) reports and in which the connection ends or the close command comes; the
-- socket is looked at first.
abbrev pub ending : List Round → Ending
ending [] = still_reads
ending (r ∷ rs) =
    let later = ending rs in
    if r.selected
    then (if socket_ends r.socket
        then hung_up
        else if is_command r.pipe
        then told_to_close
        else later)
    else later

abbrev pub Closes : Client → Ending → Reading → Type 0
Closes c still_reads r = (r.closed ≡ []) × (r.stopped ≡ false) × SameLink r.client c
Closes c hung_up r =
    (r.closed ≡ c.sock ∷ [])
    × (r.stopped ≡ true)
    × (r.client.sock ≡ negsuc 0)
    × (r.client.b_connect ≡ 0)
    × (r.client.pipefd ≡ c.pipefd)
Closes c told_to_close r =
    (r.closed ≡ c.sock ∷ pos c.pipefd.0 ∷ pos c.pipefd.1 ∷ [])
    × (r.stopped ≡ true)
    × (r.client.sock ≡ negsuc 0)
    × (r.client.b_connect ≡ 0)

module _ (api : ParcelApi) (cb : Callbacks) (keeps : KeepsLink cb) where
  process_records-SameLink :
      (c : Client) (rs : List (List ℕ)) → SameLink (process_records api cb c rs) c
  unfolding process_records
  process_records-SameLink c [] = (refl, refl, refl)
  process_records-SameLink c (r ∷ rs) =
      then_SameLink (process_records api cb (process_rx_buffer api cb c r).1 rs)
        (process_rx_buffer api cb c r).1 c
        (process_records-SameLink (process_rx_buffer api cb c r).1 rs)
        (process_rx_buffer-SameLink cb keeps api c r)

  -- What holds of the connection a round finds holds of the one it began with.
  Closes-from :
      (d c : Client) (e : Ending) (r : Reading) → SameLink d c → Closes d e r → Closes c e r
  Closes-from d c still_reads r same h = (h.0, h.1, then_SameLink r.client d c h.2 same)
  Closes-from d c hung_up r same h = (h.0 ∙ ap (λ s. s ∷ []) same.0, h.1, h.2, h.3, h.4 ∙ same.1)
  Closes-from d c told_to_close r same h = (
    h.0
        ∙ ap (λ s. s ∷ pos d.pipefd.0 ∷ pos d.pipefd.1 ∷ []) same.0
        ∙ ap (λ p. c.sock ∷ pos p.0 ∷ pos p.1 ∷ []) same.1,
    h.1,
    h.2,
    h.3,
  )

  hang_up-Closes : (c : Client) → positive c.sock ≡ true → Closes c hung_up (hang_up api cb c)
  unfolding hang_up
  hang_up-Closes c e =
      let d : Client = record c { sock = negsuc 0; b_connect = 0 } in
      let same : SameLink (notify_error cb d (code connect)) d =
        notify_error-SameLink cb keeps d (code connect) in
      rw e (refl, refl, same.0, same.2, same.1)

  ended-Closes :
      (c : Client) (rs : List (List ℕ))
      → positive c.sock ≡ true
      → Closes c hung_up (hang_up api cb (process_records api cb c rs))
  ended-Closes c rs e =
      let d : Client = process_records api cb c rs in
      let same : SameLink d c = process_records-SameLink c rs in
      Closes-from d c hung_up (hang_up api cb d) same
        (hang_up-Closes d (ap (λ s. positive s) same.0 ∙ e))

  read_socket-ends :
      (c : Client) (s : Option (List (List ℕ) × DrainEnd))
      → positive c.sock ≡ true
      → socket_ends s ≡ true
      → Closes c hung_up (read_socket api cb c s)
  unfolding read_socket
  read_socket-ends c none e h = ground arith
  read_socket-ends c (some (rs, would_block)) e h = ground arith
  read_socket-ends c (some (rs, end_of_stream)) e h = ended-Closes c rs e
  read_socket-ends c (some (rs, broken)) e h = ended-Closes c rs e

  read_socket-goes_on :
      (c : Client) (s : Option (List (List ℕ) × DrainEnd))
      → socket_ends s ≡ false
      → Closes c still_reads (read_socket api cb c s)
  unfolding read_socket
  read_socket-goes_on c none h = (refl, refl, (refl, refl, refl))
  read_socket-goes_on c (some (rs, would_block)) h = (refl, refl, process_records-SameLink c rs)
  read_socket-goes_on c (some (rs, end_of_stream)) h = ground arith
  read_socket-goes_on c (some (rs, broken)) h = ground arith

  stopped_reader :
      (c : Client) (rs : List Round)
      → c.b_connect ≡ 0
      → rx_reader api cb c rs ≡ record { client = c; closed = []; stopped = true }
  unfolding rx_reader
  stopped_reader c [] z = rw z refl
  stopped_reader c (r ∷ rs) z = rw z refl

  abbrev after_pipe : Client → Option Bool → List Round → Reading
  after_pipe d p rs =
      let q = read_pipe api cb d p in
      let later = rx_reader api cb q.client rs in
      if q.stopped then q else record later { closed = q.closed ++ later.closed }

  after_pipe-Closes :
      (d c : Client) (p : Option Bool) (rs : List Round)
      → SameLink d c
      → Closes d (ending rs) (rx_reader api cb d rs)
      → Closes c (if is_command p then told_to_close else ending rs) (after_pipe d p rs)
  unfolding read_pipe
  after_pipe-Closes d c none rs same h = Closes-from d c (ending rs) (rx_reader api cb d rs) same h
  after_pipe-Closes d c (some false) rs same h =
      Closes-from d c (ending rs) (rx_reader api cb d rs) same h
  after_pipe-Closes d c (some true) rs same h =
      Closes-from d c told_to_close (after_pipe d (some true) rs) same (
        rw (stopped_reader (record d { sock = negsuc 0; b_connect = 0 }) rs refl)
          (refl, refl, refl, refl))

  -- Where sock is above 0 and b_connect is not 0, and with callbacks that leave the connection alone, the reader thread, over any
  -- rounds: reads on, with nothing closed, as long as the daemon does not end the connection and the close
  -- command does not come; if the connection ends first, stops with the socket closed, sock -1 and
  -- b_connect 0, and with both ends of the pipe still open; if the command comes first, stops with
  -- the socket and both ends closed. In one round the end of the connection comes before the command.
  pub rx_reader-Closes :
      (c : Client) (rs : List Round)
      → positive c.sock ≡ true
      → c.b_connect ≢ 0
      → Closes c (ending rs) (rx_reader api cb c rs)
  unfolding rx_reader read_round
  rx_reader-Closes c [] e n = rw (==_ne c.b_connect 0 n) (refl, refl, (refl, refl, refl))
  rx_reader-Closes c (r ∷ rs) e n = rw (==_ne c.b_connect 0 n) (elim (Bool-cases r.selected) [
    | inl sel ↦ rw sel (elim (Bool-cases (socket_ends r.socket)) [
      | inl h ↦
          let ends : Closes c hung_up (read_socket api cb c r.socket) =
            read_socket-ends c r.socket e h in
          rw (h, ends.1) (rw ends.1 ends)
      | inr h ↦
          let on : Closes c still_reads (read_socket api cb c r.socket) =
            read_socket-goes_on c r.socket h in
          let d : Client = (read_socket api cb c r.socket).client in
          rw (h, on.1, on.0)
            (after_pipe-Closes d c r.pipe rs on.2
              (rx_reader-Closes d rs (ap (λ s. positive s) on.2.0 ∙ e) (λ z. n (sym on.2.2 ∙ z))))
    ])
    | inr sel ↦ rw sel (rx_reader-Closes c rs e n)
  ])
