-- ===== src/Ril/Connect/Laws.antt =====
-- What Connect_RILD leaves behind: descriptors, and the state of the client.
use android_device_samsung_a.Prelude.{
  ℕ, ◌≡◌, ◌⊎◌, inl, inr, refl, sym, subst, true, false, Option, none, some, List, [], ◌∷◌,
  Bool-cases, Option-cases,
}
use android_device_samsung_a.Prelude.Int.{ℤ, pos, negsuc}
use android_device_samsung_a.Ril.Status.{Status, success, connect, io}
use android_device_samsung_a.Ril.Client.{Client, open_client}
use android_device_samsung_a.Ril.Connect.{
  ConnectEnv, Connecting, connect_pipe, connect_socket, connect_rild, is_connected_rild,
}

-- A connection that is made: every call succeeded, and the socket and both ends of the pipe are open.
abbrev pub Connects : Client → ConnectEnv → Connecting → Type 0
Connects c env r =
    (s : ℕ) × (rd : ℕ) × (wr : ℕ) × (tid : ℕ) × (env.socket ≡ pos s)
    × (env.socket_nonblock ≡ true)
    × (env.pipe_fds ≡ some (rd, wr))
    × (env.pipe_nonblock ≡ true)
    × (env.thread ≡ some tid)
    × (r.opened ≡ s ∷ rd ∷ wr ∷ [])
    × (r.closed ≡ [])
    × (r.handle
        ≡ some (record c {
          sock = pos s;
          b_connect = 1;
          p_rs = env.stream;
          pipefd = (rd, wr);
          tid_reader = some tid;
        }))

-- The socket was refused, or all calls but pthread_create succeeded.
abbrev pub IsRefused : ConnectEnv → Connecting → Type 0
IsRefused env r =
    ((e : ℕ) × (env.socket ≡ negsuc e) × (r.opened ≡ []))
    ⊎ ((s : ℕ) × (rd : ℕ) × (wr : ℕ) × (env.socket ≡ pos s)
        × (env.socket_nonblock ≡ true)
        × (env.pipe_fds ≡ some (rd, wr))
        × (env.pipe_nonblock ≡ true)
        × (env.thread ≡ none)
        × (r.opened ≡ s ∷ rd ∷ wr ∷ []))

-- With the socket open, fcntl on it failed, or pipe did, or fcntl on the pipe.
abbrev pub IsBroken : ConnectEnv → Connecting → Type 0
IsBroken env r =
    (s : ℕ) × (env.socket ≡ pos s)
    × (((env.socket_nonblock ≡ false) × (r.opened ≡ s ∷ []))
        ⊎ (((env.socket_nonblock ≡ true) × (env.pipe_fds ≡ none) × (r.opened ≡ s ∷ []))
            ⊎ ((rd : ℕ) × (wr : ℕ) × (env.socket_nonblock ≡ true)
                × (env.pipe_fds ≡ some (rd, wr))
                × (env.pipe_nonblock ≡ false)
                × (r.opened ≡ s ∷ rd ∷ wr ∷ []))))

abbrev pub handle_sock : Option Client → ℤ
handle_sock none = negsuc 0
handle_sock (some c) = c.sock

-- The client counts as connected over a descriptor that is closed.
abbrev pub IsStale : Connecting → Type 0
IsStale r =
    (is_connected_rild r.handle ≡ 1)
    × ((s : ℕ) × (rest : List ℕ) × (r.closed ≡ s ∷ rest) × (handle_sock r.handle ≡ pos s))

abbrev pub ConnectOutcome : Client → ConnectEnv → Connecting → Type 0
ConnectOutcome c env r =
    ((r.status ≡ success) × Connects c env r)
    ⊎ (((r.status ≡ connect) × IsRefused env r × (r.closed ≡ r.opened))
        ⊎ ((r.status ≡ io) × IsBroken env r × (r.closed ≡ r.opened) × IsStale r))

abbrev ended : Status → Option Client → List ℕ → List ℕ → Connecting
ended status handle opened closed = record {
  status = status;
  handle = handle;
  opened = opened;
  closed = closed;
}

connect_pipe_lem :
    (c : Client) (env : ConnectEnv) (s rd wr : ℕ)
    → env.socket ≡ pos s
    → env.socket_nonblock ≡ true
    → env.pipe_fds ≡ some (rd, wr)
    → ConnectOutcome c env (
        connect_pipe
          (record c { sock = pos s; b_connect = 1; p_rs = env.stream; pipefd = (rd, wr) })
          env
          s
          rd
          wr)
unfolding connect_pipe is_connected_rild
connect_pipe_lem c env s rd wr e a p =
    let c' = record c { sock = pos s; b_connect = 1; p_rs = env.stream; pipefd = (rd, wr) } in
    let fds = s ∷ rd ∷ wr ∷ [] in
    elim (Bool-cases env.pipe_nonblock) [
      | inl nb ↦ elim (Option-cases env.thread) [
        | inl t ↦
            let made : connect_pipe c' env s rd wr ≡ ended connect (some open_client) fds fds =
              rw (nb, t, connect_pipe) refl in
            subst (ConnectOutcome c env) (sym made)
              (inr (inl (refl, inr (s, rd, wr, e, a, p, nb, t, refl), refl)))
        | inr (tid, t) ↦
            let made : connect_pipe c' env s rd wr
                ≡ ended success (some (record c' { tid_reader = some tid })) fds [] =
              rw (nb, t, connect_pipe) refl in
            subst (ConnectOutcome c env) (sym made)
              (inl (refl, (s, rd, wr, tid, e, a, p, nb, t, refl, refl, refl)))
      ]
      | inr nb ↦
          let made : connect_pipe c' env s rd wr ≡ ended io (some c') fds fds = rw nb refl in
          subst (ConnectOutcome c env) (sym made) (
            inr (
              inr (
                refl,
                (s, e, inr (inr (rd, wr, a, p, nb, refl))),
                refl,
                (refl, (s, rd ∷ wr ∷ [], refl, refl)),
              )))
    ]

connect_socket_lem :
    (c : Client) (env : ConnectEnv) (s : ℕ)
    → env.socket ≡ pos s
    → ConnectOutcome c env (connect_socket (record c { sock = pos s; b_connect = 1 }) env s)
unfolding connect_socket is_connected_rild
connect_socket_lem c env s e =
    let c' = record c { sock = pos s; b_connect = 1 } in
    let fds = s ∷ [] in
    elim (Bool-cases env.socket_nonblock) [
      | inl nb ↦ elim (Option-cases env.pipe_fds) [
        | inl p ↦
            let made : connect_socket c' env s
                ≡ ended io (some (record c' { p_rs = env.stream })) fds fds =
              rw (nb, p, connect_socket) refl in
            subst (ConnectOutcome c env) (sym made)
              (inr (inr (refl, (s, e, inr (inl (nb, p, refl))), refl, (refl, (s, [], refl, refl)))))
        | inr ((rd, wr), p) ↦
            let made : connect_socket c' env s
                ≡ connect_pipe (record c' { p_rs = env.stream; pipefd = (rd, wr) }) env s rd wr =
              rw (nb, p, connect_socket) refl in
            subst (ConnectOutcome c env) (sym made) (connect_pipe_lem c env s rd wr e nb p)
      ]
      | inr nb ↦
          let made : connect_socket c' env s ≡ ended io (some c') fds fds = rw nb refl in
          subst (ConnectOutcome c env) (sym made)
            (inr (inr (refl, (s, e, inl (nb, refl)), refl, (refl, (s, [], refl, refl)))))
    ]

-- Connect_RILD on a client succeeds exactly if each of the system calls does, and then the socket and both
-- ends of the pipe are open and the client is connected and otherwise as it was. It fails with
-- RIL_CLIENT_ERR_CONNECT if the socket is refused or, behind all others, the thread is not made, and
-- with RIL_CLIENT_ERR_IO if pipe or a call of fcntl fails on an open socket; then it has opened the
-- descriptors up to that call and closed exactly those. After RIL_CLIENT_ERR_IO isConnected_RILD still answers
-- 1, and the client's socket is the first descriptor that was closed.
pub connect_rild_lem :
    (c : Client) (env : ConnectEnv) → ConnectOutcome c env (connect_rild (some c) env)
unfolding connect_rild
connect_rild_lem c env = by_socket env.socket refl
  where
    by_socket :
        (s : ℤ)
        → env.socket ≡ s
        → ConnectOutcome c env (elim s [
          | pos s ↦ connect_socket (record c { sock = pos s; b_connect = 1 }) env s
          | negsuc e ↦ record {
            status = connect;
            handle = some (record c { sock = negsuc e });
            opened = [];
            closed = [];
          }
        ])
    by_socket (pos s) e = connect_socket_lem c env s e
    by_socket (negsuc n) e = inr (inl (refl, inl (n, e, refl), refl))
