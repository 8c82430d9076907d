-- ===== src/Ril/Response/Link.antt =====
-- Processing a record of ril/libsecril-client/secril-client.cpp leaves the connection as it is.
use android_device_samsung_a.Prelude.{
  ℕ, ◌≡◌, ◌∙◌, refl, Option, none, some, List, ◌==◌, Bool-cases, Option-cases, inl, inr, arith,
}
use android_device_samsung_a.Ril.Status.{Status, success, code}
use android_device_samsung_a.Ril.Tokens.{is_valid_token}
use android_device_samsung_a.Ril.Handlers.{HandlerSlot, lookup}
use android_device_samsung_a.Ril.Parcel.{ParcelApi}
use android_device_samsung_a.Ril.Client.{Client}
use android_device_samsung_a.Ril.Request.{release}
use android_device_samsung_a.Ril.Oem.{with_handler}
use android_device_samsung_a.Ril.Response.{
  notify_error, drop_handler, complete, read_payload, find_req_handler, process_unsolicited,
  process_valid, process_solicited, report, process_rx_buffer,
}
use android_device_samsung_a.Ril.Response.Calls.{Callbacks}

-- The same connection.
abbrev pub SameLink : Client → Client → Type 0
SameLink d c = (d.sock ≡ c.sock) × (d.pipefd ≡ c.pipefd) × (d.b_connect ≡ c.b_connect)

-- The callbacks neither connect nor disconnect.
pub record KeepsLink (cb : Callbacks) : Type 0 where
  pub complete :
      (f : ℕ) (d : Option (List ℕ)) (n : ℕ) (c : Client) → SameLink (cb.on_complete f d n c) c
  pub unsolicited :
      (f : ℕ) (d : Option (List ℕ)) (n : ℕ) (c : Client) → SameLink (cb.on_unsolicited f d n c) c
  pub error : (f a e : ℕ) (c : Client) → SameLink (cb.on_error f a e c) c

pub then_SameLink : (e d c : Client) → SameLink e d → SameLink d c → SameLink e c
then_SameLink e d c p q = (p.0 ∙ q.0, p.1 ∙ q.1, p.2 ∙ q.2)

module _ (cb : Callbacks) (keeps : KeepsLink cb) where
  pub notify_error-SameLink : (c : Client) (err : ℕ) → SameLink (notify_error cb c err) c
  unfolding notify_error
  notify_error-SameLink c err = elim (Option-cases c.err_cb) [
    | inl e ↦ rw (e, notify_error) (refl, refl, refl)
    | inr (f, e) ↦ rw (e, notify_error) (keeps.error f c.err_cb_data err c)
  ]

  drop_handler-SameLink : (c : Client) (id : ℕ) → SameLink (drop_handler c id) c
  unfolding drop_handler with_handler
  drop_handler-SameLink c id = ground arith

  complete-SameLink :
      (c : Client) (s : Option HandlerSlot) (d : Option (List ℕ)) (n : ℕ)
      → SameLink (complete cb c s d n) c
  unfolding complete
  complete-SameLink c none d n = (refl, refl, refl)
  complete-SameLink c (some slot) d n = elim (Option-cases slot.handler) [
    | inl e ↦ rw (e, complete) (refl, refl, refl)
    | inr (f, e) ↦
        rw (e, complete)
          (then_SameLink (drop_handler (cb.on_complete f d n c) slot.id) (cb.on_complete f d n c) c
            (drop_handler-SameLink (cb.on_complete f d n c) slot.id) (keeps.complete f d n c))
  ]

  release-SameLink : (c : Client) (token : ℕ) → SameLink (release c token) c
  unfolding release
  release-SameLink c token = (refl, refl, refl)

  report-SameLink : (r : Status × Client) (c : Client) → SameLink r.1 c → SameLink (report cb r).1 c
  unfolding report
  report-SameLink (success, d) c same = same
  report-SameLink (status, d) c same =
      then_SameLink (notify_error cb d (code status)) d c (notify_error-SameLink d (code status))
        same

  module _ (api : ParcelApi) where
    process_unsolicited-SameLink :
        (c : Client) (p : api.Parcel) → SameLink (process_unsolicited api cb c p).1 c
    unfolding process_unsolicited
    process_unsolicited-SameLink c p = elim (Option-cases (api.read_int32 p)) [
      | inl e ↦ rw (e, process_unsolicited) (refl, refl, refl)
      | inr ((id, p'), e) ↦ elim (Option-cases (lookup c.unsol_handlers id)) [
        | inl n ↦ rw (e, process_unsolicited, n) (refl, refl, refl)
        | inr (f, n) ↦ rw (e, process_unsolicited, n) (keeps.unsolicited f _ _ c)
      ]
    ]

    process_valid-SameLink :
        (c : Client) (token : ℕ) (p : api.Parcel) → SameLink (process_valid api cb c token p).1 c
    unfolding process_valid
    process_valid-SameLink c token p = elim (Option-cases (api.read_int32 p)) [
      | inl e ↦ rw (e, process_valid) (release-SameLink c token)
      | inr ((err, p'), e) ↦ elim (Bool-cases (err == 0)) [
        | inl z ↦
            rw (e, process_valid, z)
              (complete-SameLink c (find_req_handler c.history c.req_handlers token)
                (read_payload api p').0 (read_payload api p').1)
        | inr z ↦ rw (e, process_valid, z) (notify_error-SameLink c err)
      ]
    ]

    process_solicited-SameLink :
        (c : Client) (p : api.Parcel) → SameLink (process_solicited api cb c p).1 c
    unfolding process_solicited
    process_solicited-SameLink c p = elim (Option-cases (api.read_int32 p)) [
      | inl e ↦ rw (e, process_solicited) (refl, refl, refl)
      | inr ((token, p'), e) ↦ elim (Bool-cases (is_valid_token c.token_pool token == 0)) [
        | inl z ↦ rw (e, process_solicited, z) (refl, refl, refl)
        | inr z ↦ rw (e, process_solicited, z) (process_valid-SameLink c token p')
      ]
    ]

    pub process_rx_buffer-SameLink :
        (c : Client) (buffer : List ℕ) → SameLink (process_rx_buffer api cb c buffer).1 c
    unfolding process_rx_buffer
    process_rx_buffer-SameLink c buffer =
        elim (Option-cases (api.read_int32 (api.of_bytes buffer))) [
          | inl e ↦ rw (e, process_rx_buffer) (refl, refl, refl)
          | inr ((type, p), e) ↦ elim (Bool-cases (type == 1)) [
            | inl u ↦ rw (e, process_rx_buffer, u) (process_unsolicited-SameLink c p)
            | inr u ↦ elim (Bool-cases (type == 0)) [
              | inl z ↦
                  rw (e, process_rx_buffer, u, z)
                    (report-SameLink (process_solicited api cb c p) c
                      (process_solicited-SameLink c p))
              | inr z ↦ rw (e, process_rx_buffer, u, z) (refl, refl, refl)
            ]
          ]
        ]
