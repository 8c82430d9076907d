-- ===== src/Ril/Response/Invariant.antt =====
-- What a response does to the client: the invariant, the handler call, and a malformed token.
use android_device_samsung_a.Prelude.{
  ℕ, ◌^◌, ◌<◌, ◌≡◌, Option, none, some, List, ◌==◌, if◌then◌else◌, Bool-cases, Option-cases, inl,
  inr,
}
use android_device_samsung_a.Ril.Status.{Status, success, code}
use android_device_samsung_a.Ril.Tokens.{is_valid_token}
use android_device_samsung_a.Ril.Handlers.{HandlerSlot, lookup}
use android_device_samsung_a.Ril.Parcel.{ParcelApi}
use android_device_samsung_a.Ril.Client.{Client}
use android_device_samsung_a.Ril.Request.{release}
use android_device_samsung_a.Ril.Request.Consistent.{IsClient, release-IsConsistent}
use android_device_samsung_a.Ril.Oem.Laws.{with_no_handler-IsClient}
use android_device_samsung_a.Ril.Response.Calls.{Callbacks}
use android_device_samsung_a.Ril.Response.{
  notify_error, drop_handler, complete, read_payload, process_unsolicited, process_valid,
  process_solicited, report, process_rx_buffer,
}

-- The callbacks leave a valid client valid, as the calls of the library do.
pub record KeepsClient (cb : Callbacks) : Type 0 where
  pub complete :
      (f : ℕ) (d : Option (List ℕ)) (n : ℕ) (c : Client)
      → IsClient c
      → IsClient (cb.on_complete f d n c)
  pub unsolicited :
      (f : ℕ) (d : Option (List ℕ)) (n : ℕ) (c : Client)
      → IsClient c
      → IsClient (cb.on_unsolicited f d n c)
  pub error : (f a e : ℕ) (c : Client) → IsClient c → IsClient (cb.on_error f a e c)

-- The token that a solicited response carries, if it carries one, is a single bit.
abbrev pub OneBit : (api : ParcelApi) → api.Parcel → Type 0
OneBit api p = elim (api.read_int32 p) [
  | none ↦ Unit {0}
  | some (t, _) ↦ (k : ℕ) × (k < 32) × (t ≡ 2 ^ k)
]

abbrev pub OneToken : ParcelApi → List ℕ → Type 0
OneToken api buffer = elim (api.read_int32 (api.of_bytes buffer)) [
  | none ↦ Unit {0}
  | some (type, p) ↦ if type == 0 then OneBit api p else Unit {0}
]

release-IsClient : (c : Client) (k : ℕ) → k < 32 → IsClient c → IsClient (release c (2 ^ k))
unfolding release
release-IsClient c k l v = record {
  consistent = release-IsConsistent c k l v.consistent;
  reqs = v.reqs;
  unsols = v.unsols;
}

module _ (cb : Callbacks) (keeps : KeepsClient cb) where
  pub notify_error-IsClient : (c : Client) (err : ℕ) → IsClient c → IsClient (notify_error cb c err)
  unfolding notify_error
  notify_error-IsClient c err v = elim (Option-cases c.err_cb) [
    | inl e ↦ rw (e, notify_error) v
    | inr (f, e) ↦ rw (e, notify_error) (keeps.error f c.err_cb_data err c v)
  ]

  drop_handler-IsClient : (c : Client) (id : ℕ) → IsClient c → IsClient (drop_handler c id)
  unfolding drop_handler
  drop_handler-IsClient c id v = elim (Bool-cases (c.b_del_handler == 0)) [
    | inl e ↦ rw e v
    | inr e ↦ rw e (
        with_no_handler-IsClient id (record c { b_del_handler = 0 })
          (record { consistent = v.consistent; reqs = v.reqs; unsols = v.unsols }))
  ]

  complete-IsClient :
      (c : Client) (s : Option HandlerSlot) (d : Option (List ℕ)) (n : ℕ)
      → IsClient c
      → IsClient (complete cb c s d n)
  unfolding complete
  complete-IsClient c none d n v = v
  complete-IsClient c (some slot) d n v = by_handler slot.handler
    where
      by_handler :
          (h : Option ℕ)
          → IsClient (elim h [ none ↦ c | some f ↦ drop_handler (cb.on_complete f d n c) slot.id ])
      by_handler none = v
      by_handler (some f) = drop_handler-IsClient _ slot.id (keeps.complete f d n c v)

  module _ (api : ParcelApi) where
    process_valid-IsClient :
        (c : Client) (k : ℕ) (p : api.Parcel)
        → k < 32
        → IsClient c
        → IsClient (process_valid api cb c (2 ^ k) p).1
    unfolding process_valid
    process_valid-IsClient c k p l v = elim (Option-cases (api.read_int32 p)) [
      | inl e ↦ rw (e, process_valid) (release-IsClient c k l v)
      | inr ((err, p'), e) ↦
          rw (e, process_valid)
            (elim (Bool-cases (err == 0)) [
              | inl z ↦ rw z (release-IsClient _ k l (complete-IsClient c _ _ _ v))
              | inr z ↦ rw z (release-IsClient _ k l (notify_error-IsClient c err v))
            ])
    ]

    report-IsClient : (s : Status) (c : Client) → IsClient c → IsClient (report cb (s, c)).1
    unfolding report
    report-IsClient success c v = v
    report-IsClient s c v = notify_error-IsClient c (code s) v

    report_solicited-IsClient : (r : Status × Client) → IsClient r.1 → IsClient (report cb r).1
    report_solicited-IsClient (s, c) v = report-IsClient s c v

    -- A solicited response whose token, if it has one, is a single bit, as AllocateToken hands them
    -- out, keeps the client valid on every branch, if the callbacks do.
    pub process_solicited-IsClient :
        (c : Client) (p : api.Parcel)
        → IsClient c
        → OneBit api p
        → IsClient (process_solicited api cb c p).1
    unfolding process_solicited
    process_solicited-IsClient c p v one = elim (Option-cases (api.read_int32 p)) [
      | inl e ↦ rw (e, process_solicited) v
      | inr ((t, p'), e) ↦
          let (k, l, b) = rw (e, OneBit) at one in
          rw (e, process_solicited)
            (elim (Bool-cases (is_valid_token c.token_pool t == 0)) [
              | inl z ↦ rw z v
              | inr z ↦ rw z (rw b (process_valid-IsClient c k p' l v))
            ])
    ]

    -- An unsolicited response keeps the client valid, if the callbacks do.
    pub process_unsolicited-IsClient :
        (c : Client) (p : api.Parcel) → IsClient c → IsClient (process_unsolicited api cb c p).1
    unfolding process_unsolicited
    process_unsolicited-IsClient c p v = elim (Option-cases (api.read_int32 p)) [
      | inl e ↦ rw (e, process_unsolicited) v
      | inr ((id, p'), e) ↦
          let (d, n) = read_payload api p' in
          rw (e, process_unsolicited) (by_handler d n (lookup c.unsol_handlers id))
    ]
      where
        by_handler :
            (d : Option (List ℕ)) (n : ℕ) (h : Option ℕ)
            → IsClient
                (elim h as (λ _. Status × Client) [
                  | none ↦ (success, c)
                  | some f ↦ (success, cb.on_unsolicited f d n c)
                ]).1
        by_handler d n none = v
        by_handler d n (some f) = keeps.unsolicited f d n c v

    -- processRxBuffer keeps the client valid on every branch, if the callbacks do and the token of a
    -- solicited response is one bit.
    pub process_rx_buffer-IsClient :
        (c : Client) (buffer : List ℕ)
        → IsClient c
        → OneToken api buffer
        → IsClient (process_rx_buffer api cb c buffer).1
    unfolding process_rx_buffer
    process_rx_buffer-IsClient c buffer v one =
        elim (Option-cases (api.read_int32 (api.of_bytes buffer))) [
          | inl e ↦ rw (e, process_rx_buffer) v
          | inr ((type, p), e) ↦
              rw (e, process_rx_buffer)
                (elim (Bool-cases (type == 1)) [
                  | inl u ↦ rw u (process_unsolicited-IsClient c p v)
                  | inr u ↦ rw u (elim (Bool-cases (type == 0)) [
                    | inl z ↦
                        let one' : OneBit api p = rw z at (rw (e, OneToken) at one) in
                        rw z (report_solicited-IsClient _ (process_solicited-IsClient c p v one'))
                    | inr z ↦ rw z v
                  ])
                ])
        ]
