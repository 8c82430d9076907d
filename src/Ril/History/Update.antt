-- ===== src/Ril/History/Update.antt =====
-- What RecordReqHistory and ClearReqHistory do to the history.
use android_device_samsung_a.Prelude.{
  ℕ, ◌+◌, ◌-◌, ◌^◌, ◌<◌, ◌≡◌, ◌≢◌, ◌⊎◌, inl, inr, refl, Bool-cases, List, [], ◌∷◌, some, ◌==◌,
  if◌then◌else◌, arith, length,
}
use android_device_samsung_a.Ril.Tokens.Alloc.{two-pow-pos}
use android_device_samsung_a.Ril.Status.{success, resource}
use android_device_samsung_a.Ril.History.{
  ReqHistory, record_req_history, clear_req_history, find_id,
}
use android_device_samsung_a.Ril.History.Count.{count, occupied, AllSlots}

-- Recording fails only when each slot is taken.
pub record_full :
    (h : List ReqHistory) (t id : ℕ)
    → ((record_req_history h t id).0 ≡ success)
      ⊎ (((record_req_history h t id).0 ≡ resource) × (occupied h ≡ length h))
unfolding record_req_history
record_full [] t id = inr (refl, refl)
record_full (s ∷ ss) t id = ground (arith, record_full ss t id)

pub length-record :
    (h : List ReqHistory) (t id : ℕ) → length (record_req_history h t id).1 ≡ length h
unfolding record_req_history
length-record [] t id = refl
length-record (s ∷ ss) t id = ground (arith, length-record ss t id)

pub count-record :
    (h : List ReqHistory) (t id u : ℕ)
    → u ≢ 0
    → (record_req_history h t id).0 ≡ success
    → count u (record_req_history h t id).1 ≡ (if t == u then 1 else 0) + count u h
unfolding record_req_history
count-record [] t id u nz ok = ground arith
count-record (s ∷ ss) t id u nz ok = ground (arith, count-record ss t id u nz)

pub AllSlots-record :
    (n : ℕ) (h : List ReqHistory) (t id i : ℕ)
    → t ≡ 2 ^ i
    → i < n
    → AllSlots n h
    → AllSlots n (record_req_history h t id).1
unfolding record_req_history
AllSlots-record n [] t id i e l a = tt
AllSlots-record n (s ∷ ss) t id i e l a = elim (Bool-cases (s.token == 0)) [
  | inl free ↦ rw free (inr (i, l, e), a.1)
  | inr taken ↦ rw taken (a.0, AllSlots-record n ss t id i e l a.1)
]

pub find_id-record :
    (h : List ReqHistory) (t id : ℕ)
    → t ≢ 0
    → count t h ≡ 0
    → (record_req_history h t id).0 ≡ success
    → find_id (record_req_history h t id).1 t ≡ some id
unfolding record_req_history find_id
find_id-record [] t id nz c ok = ground arith
find_id-record (s ∷ ss) t id nz c ok = ground (arith, find_id-record ss t id nz)

pub find_id-record_other :
    (h : List ReqHistory) (t id u : ℕ)
    → u ≢ 0
    → u ≢ t
    → find_id (record_req_history h t id).1 u ≡ find_id h u
unfolding record_req_history find_id
find_id-record_other [] t id u nz ne = refl
find_id-record_other (s ∷ ss) t id u nz ne = ground (arith, find_id-record_other ss t id u nz ne)

-- Clearing what was just recorded puts the old history back.
pub clear-record :
    (n : ℕ) (h : List ReqHistory) (t id : ℕ)
    → t ≢ 0
    → count t h ≡ 0
    → AllSlots n h
    → (record_req_history h t id).0 ≡ success
    → clear_req_history (record_req_history h t id).1 t ≡ h
unfolding record_req_history clear_req_history
clear-record n [] t id nz c a ok = ground arith
clear-record n (s ∷ ss) t id nz c (inl (z, w), a) ok = ground arith
clear-record n (s ∷ ss) t id nz c (inr (i, l, e), a) ok =
    ground (arith, two-pow-pos i, clear-record n ss t id nz)

pub length-clear : (h : List ReqHistory) (t : ℕ) → length (clear_req_history h t) ≡ length h
unfolding clear_req_history
length-clear [] t = refl
length-clear (s ∷ ss) t = ground (arith, length-clear ss t)

pub count-clear :
    (h : List ReqHistory) (t u : ℕ)
    → u ≢ 0
    → count u (clear_req_history h t) ≡ (if t == u then count u h - 1 else count u h)
unfolding clear_req_history
count-clear [] t u nz = ground arith
count-clear (s ∷ ss) t u nz = ground (arith, count-clear ss t u nz)

pub AllSlots-clear :
    (n : ℕ) (h : List ReqHistory) (t : ℕ) → AllSlots n h → AllSlots n (clear_req_history h t)
unfolding clear_req_history
AllSlots-clear n [] t a = tt
AllSlots-clear n (s ∷ ss) t a = ground (arith, AllSlots-clear n ss t a.1)

pub find_id-clear_other :
    (h : List ReqHistory) (t u : ℕ)
    → u ≢ 0
    → u ≢ t
    → find_id (clear_req_history h t) u ≡ find_id h u
unfolding clear_req_history find_id
find_id-clear_other [] t u nz ne = refl
find_id-clear_other (s ∷ ss) t u nz ne = ground (arith, find_id-clear_other ss t u nz ne)
