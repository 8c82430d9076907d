-- ===== src/Ril/Oem/Laws.antt =====
-- The commands keep the client's invariant, and their argument codes tell the arguments apart.
use android_device_samsung_a.Prelude.{
  ℕ, ◌≢◌, inl, inr, Bool, true, false, Bool-cases, if◌then◌else◌, Option, none, some, List, arith,
}
use android_device_samsung_a.Prelude.Int.{is_neg}
use android_device_samsung_a.Ril.Status.{inval}
use android_device_samsung_a.Ril.Handlers.{HandlerSlot, register}
use android_device_samsung_a.Ril.Handlers.Table.{IsTable}
use android_device_samsung_a.Ril.Handlers.Register.{register_lem, register-none-IsTable}
use android_device_samsung_a.Ril.Parcel.{ParcelApi}
use android_device_samsung_a.Ril.Client.{Client}
use android_device_samsung_a.Ril.Write.{WriteOutcome}
use android_device_samsung_a.Ril.Request.{Sending, send_oem_request_hook_raw}
use android_device_samsung_a.Ril.Request.Consistent.{IsClient}
use android_device_samsung_a.Ril.Request.Send.{Sends, send_lem}
use android_device_samsung_a.Ril.Oem.{with_handler, after_send, request, checked, reply_of, refuse}

pub register-IsTable :
    (id : ℕ) (h : Option ℕ) (t : List HandlerSlot)
    → id ≢ 0
    → IsTable t
    → IsTable (register id h t).1
register-IsTable id h t nz v = elim (register_lem id t nz v h) [ inl r ↦ r.1 | inr r ↦ rw r.0 v ]

pub with_handler-IsClient :
    (id : ℕ) (h : Option ℕ) (c : Client) → id ≢ 0 → IsClient c → IsClient (with_handler c id h)
unfolding with_handler
with_handler-IsClient id h c nz v = record {
  consistent = v.consistent;
  reqs = register-IsTable id h c.req_handlers nz v.reqs;
  unsols = v.unsols;
}

-- Deregistration needs no condition on the ID.
pub with_no_handler-IsClient :
    (id : ℕ) (c : Client) → IsClient c → IsClient (with_handler c id none)
unfolding with_handler
with_no_handler-IsClient id c v = record {
  consistent = v.consistent;
  reqs = register-none-IsTable id c.req_handlers v.reqs;
  unsols = v.unsols;
}

module _ (api : ParcelApi) (id : ℕ) (payload : List ℕ) (os : List WriteOutcome) where
  sends-IsClient :
      (c : Client) (r : Sending) → IsClient c → Sends api c id payload r → IsClient r.client
  sends-IsClient c r v (inl e) = rw e.1 v
  sends-IsClient c r v (inr (inl e)) = rw e.1 v
  sends-IsClient c r v (inr (inr (f, _))) = record {
    consistent = f.consistent;
    reqs = rw f.rest_same v.reqs;
    unsols = rw f.rest_same v.unsols;
  }

  pub send-IsClient :
      (c : Client) → IsClient c → IsClient (send_oem_request_hook_raw api c id payload os).client
  send-IsClient c v =
      sends-IsClient c (send_oem_request_hook_raw api c id payload os) v
        (send_lem api c id payload os v.consistent)

after_send-IsClient :
    (id : ℕ) (s : Sending) → id ≢ 0 → IsClient s.client → IsClient (after_send id s).client
unfolding after_send
after_send-IsClient id s nz v = ground (arith, v, with_handler-IsClient id none s.client nz v)

pub request-IsClient :
    (api : ParcelApi) (id : ℕ) (h : Option ℕ) (payload : List ℕ) (os : List WriteOutcome)
    (c : Client)
    → id ≢ 0
    → IsClient c
    → IsClient (request api id h payload os c).client
unfolding request
request-IsClient api id h payload os c nz v =
    after_send-IsClient id _ nz
      (send-IsClient api id payload os (with_handler c id h) (with_handler-IsClient id h c nz v))

-- A handle is NULL or leads to a client that meets the invariant.
abbrev pub IsHandle : Option Client → Type 0
IsHandle none = Unit {0}
IsHandle (some c) = IsClient c

pub checked-IsHandle :
    (handle : Option Client) (valid : Bool) (os : List WriteOutcome) (command : Client → Sending)
    → ((c : Client) → IsClient c → IsClient (command c).client)
    → IsHandle handle
    → IsHandle (checked handle valid os command).handle
unfolding checked
checked-IsHandle none valid os command keep v = tt
checked-IsHandle (some c) valid os command keep v = elim (Bool-cases (is_neg c.sock)) [
  | inl off ↦ rw off v
  | inr on ↦ rw on (by_argument valid)
]
  where
    by_argument :
        (b : Bool) → IsHandle (if b then reply_of (command c) else refuse inval (some c) os).handle
    by_argument true = keep c v
    by_argument false = v
