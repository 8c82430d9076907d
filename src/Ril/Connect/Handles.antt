-- ===== src/Ril/Connect/Handles.antt =====
-- The client that OpenClient_RILD returns is valid, and the calls that connect, disconnect and close it
-- (ril/libsecril-client/secril-client.cpp) keep it so.
use android_device_samsung_a.Prelude.{
  ℕ, zero, suc, ◌^◌, ◌≡◌, ◌≢◌, refl, sym, subst, ◌∙◌, ◌⊎◌, inl, inr, Bool, Option, none, some, List,
  replicate, length-replicate, Bool-cases, Option-cases, arith,
}
use android_device_samsung_a.Prelude.Int.{ℤ, pos, negsuc}
use android_device_samsung_a.Prelude.Bits.{bit-zero}
use android_device_samsung_a.Ril.Status.{Status}
use android_device_samsung_a.Ril.History.{free_slot}
use android_device_samsung_a.Ril.History.Count.{count, AllSlots}
use android_device_samsung_a.Ril.Handlers.{empty_slot}
use android_device_samsung_a.Ril.Handlers.Table.{IsTable}
use android_device_samsung_a.Ril.Client.{Client, open_client}
use android_device_samsung_a.Ril.Write.{WriteOutcome}
use android_device_samsung_a.Ril.Request.Consistent.{IsClient, two-pow-ne}
use android_device_samsung_a.Ril.Oem.Laws.{IsHandle}
use android_device_samsung_a.Ril.Connect.{
  ConnectEnv, connect_pipe, connect_socket, connect_rild, disconnect_rild, close_client_rild,
}

count-free : (n t : ℕ) → t ≢ 0 → count t (replicate n free_slot) ≡ 0
count-free zero t nz = refl
count-free (suc n) t nz = ground (arith, count-free n t nz)

AllSlots-free : (n k : ℕ) → AllSlots k (replicate n free_slot)
AllSlots-free zero k = tt
AllSlots-free (suc n) k = (inl (refl, refl), AllSlots-free n k)

IsTable-empty : (n : ℕ) → IsTable (replicate n empty_slot)
IsTable-empty zero = tt
IsTable-empty (suc n) = (inl (refl, refl), IsTable-empty n)

-- The client that OpenClient_RILD returns is valid.
pub open_client-IsClient : IsClient open_client
open_client-IsClient = record {
  consistent = record {
    word = omega arith;
    slots = length-replicate 32 free_slot;
    valid = AllSlots-free 32 32;
    in_use = λ i l. count-free 32 (2 ^ i) (two-pow-ne i) ∙ sym (bit-zero i);
  };
  reqs = IsTable-empty 32;
  unsols = IsTable-empty 32;
}

connect_pipe-IsHandle :
    (c : Client) (env : ConnectEnv) (s r w : ℕ)
    → IsClient c
    → IsHandle (connect_pipe c env s r w).handle
unfolding connect_pipe
connect_pipe-IsHandle c env s r w v = elim (Bool-cases env.pipe_nonblock) [
  | inl nb ↦ rw nb (elim (Option-cases env.thread) [
    | inl t ↦ rw (t, connect_pipe) open_client-IsClient
    | inr (tid, t) ↦
        rw (t, connect_pipe)
          (record { consistent = v.consistent; reqs = v.reqs; unsols = v.unsols })
  ])
  | inr nb ↦ rw nb v
]

connect_socket-IsHandle :
    (c : Client) (env : ConnectEnv) (s : ℕ) → IsClient c → IsHandle (connect_socket c env s).handle
unfolding connect_socket
connect_socket-IsHandle c env s v = elim (Bool-cases env.socket_nonblock) [
  | inl nb ↦ rw nb (elim (Option-cases env.pipe_fds) [
    | inl p ↦
        rw (p, connect_socket)
          (record { consistent = v.consistent; reqs = v.reqs; unsols = v.unsols })
    | inr ((r, w), p) ↦
        rw (p, connect_socket)
          (connect_pipe-IsHandle (record c { p_rs = env.stream; pipefd = (r, w) }) env s r w
            (record { consistent = v.consistent; reqs = v.reqs; unsols = v.unsols }))
  ])
  | inr nb ↦ rw nb v
]

connect_from :
    (c : Client) (env : ConnectEnv) (socket : ℤ)
    → env.socket ≡ socket
    → IsClient c
    → IsHandle (connect_rild (some c) env).handle
unfolding connect_rild
connect_from c env (pos s) e v =
    rw (e, connect_rild)
      (connect_socket-IsHandle (record c { sock = pos s; b_connect = 1 }) env s
        (record { consistent = v.consistent; reqs = v.reqs; unsols = v.unsols }))
connect_from c env (negsuc n) e v =
    rw (e, connect_rild) (record { consistent = v.consistent; reqs = v.reqs; unsols = v.unsols })

pub connect_rild-IsHandle :
    (h : Option Client) (env : ConnectEnv) → IsHandle h → IsHandle (connect_rild h env).handle
unfolding connect_rild
connect_rild-IsHandle none env v = tt
connect_rild-IsHandle (some c) env v = connect_from c env env.socket refl v

-- Disconnect_RILD leaves the client, or clears its b_connect.
disconnect_from :
    (c : Client) (k : Option Client) (os : List WriteOutcome) (status : Status) (joins : Bool)
    (sock : ℤ)
    → c.sock ≡ sock
    → disconnect_rild (some c) os ≡ some (status, joins, k)
    → (k ≡ some c) ⊎ (k ≡ some (record c { b_connect = 0 }))
unfolding disconnect_rild
disconnect_from c k os status joins (negsuc zero) s e = ground (arith, s, e)
disconnect_from c k os status joins (negsuc (suc n)) s e = ground (arith, s, e)
disconnect_from c k os status joins (pos zero) s e = ground (arith, s, e)
disconnect_from c k os status joins (pos (suc n)) s e = ground (arith, s, e)

pub disconnect_rild-IsHandle :
    (h k : Option Client) (os : List WriteOutcome) (status : Status) (joins : Bool)
    → disconnect_rild h os ≡ some (status, joins, k)
    → IsHandle h
    → IsHandle k
unfolding disconnect_rild
disconnect_rild-IsHandle none none os status joins e v = tt
disconnect_rild-IsHandle none (some d) os status joins e v = ground (arith, e)
disconnect_rild-IsHandle (some c) k os status joins e v =
    elim (disconnect_from c k os status joins c.sock refl e) [
      | inl same ↦ subst IsHandle (sym same) v
      | inr cleared ↦
          subst IsHandle (sym cleared)
            (record { consistent = v.consistent; reqs = v.reqs; unsols = v.unsols })
    ]

pub close_client_rild-IsHandle :
    (h k : Option Client) (os : List WriteOutcome) (status : Status)
    → close_client_rild h os ≡ some (status, k)
    → IsHandle k
unfolding close_client_rild
close_client_rild-IsHandle h none os status e = tt
close_client_rild-IsHandle none (some d) os status e = ground (arith, e)
close_client_rild-IsHandle (some c) (some d) os status e =
    elim (Option-cases (disconnect_rild (some c) os)) [
      | inl n ↦ ground (arith, n, e)
      | inr (r, n) ↦ ground (arith, n, e)
    ]
