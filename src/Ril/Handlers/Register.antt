-- ===== src/Ril/Handlers/Register.antt =====
-- Registration updates a map from request IDs to handlers.
use android_device_samsung_a.Prelude.{
  ℕ, zero, suc, ◌≡◌, ◌≢◌, ◌⊎◌, inl, inr, refl, ap, sym, ◌∙◌, Option, none, some, List, [], ◌∷◌,
  ◌==◌, if◌then◌else◌, arith, set, Bool-cases, ==_iff, ==_ne,
}
use android_device_samsung_a.Ril.Status.{Status, success, resource}
use android_device_samsung_a.Ril.Handlers.{
  HandlerSlot, empty_slot, update, register, find_handler, lookup,
}
use android_device_samsung_a.Ril.Handlers.Scan.{last_match, first_empty, scan-eq}
use android_device_samsung_a.Ril.Handlers.Table.{
  Absent, IsTable, Absent-of_none, lookup-Absent, Absent-set, head_ne, lookup-set_match,
  Absent-set_empty, lookup-set_free, lookup-set_match_other, lookup-set_free_other,
}

-- No slot of the table is empty.
abbrev pub IsFull : List HandlerSlot → Type 0
IsFull [] = Unit {0}
IsFull (s ∷ ss) = (s.id ≢ 0) × IsFull ss

IsFull-of_none : (t : List HandlerSlot) → first_empty t ≡ none → IsFull t
IsFull-of_none [] e = tt
IsFull-of_none (s ∷ ss) e = ground (arith, IsFull-of_none ss)

IsTable-set_empty : (t : List HandlerSlot) (k : ℕ) → IsTable t → IsTable (set t k empty_slot)
IsTable-set_empty [] k v = tt
IsTable-set_empty (s ∷ ss) zero v = (inl (refl, refl), v.1)
IsTable-set_empty (s ∷ ss) (suc k) (inl z, v) = (inl z, IsTable-set_empty ss k v)
IsTable-set_empty (s ∷ ss) (suc k) (inr (nz, a), v) =
    (inr (nz, Absent-set s.id k ss empty_slot (λ e. nz (sym e)) a), IsTable-set_empty ss k v)

IsTable-set_match :
    (id : ℕ) (h : Option ℕ) (t : List HandlerSlot) (k : ℕ)
    → id ≢ 0
    → IsTable t
    → last_match id t ≡ some k
    → IsTable (set t k (record { id = id; handler = h }))
IsTable-set_match id h [] k nz v e = tt
IsTable-set_match id h (s ∷ ss) zero nz v e = (inr (nz, Absent-of_none id ss (ground arith)), v.1)
IsTable-set_match id h (s ∷ ss) (suc k) nz (inl z, v) e =
    let (below, ne) = head_ne id s ss k nz (inl z, v) e in
    (inl z, IsTable-set_match id h ss k nz v below)
IsTable-set_match id h (s ∷ ss) (suc k) nz (inr (p, a), v) e =
    let (below, ne) = head_ne id s ss k nz (inr (p, a), v) e in
    (inr (p, Absent-set s.id k ss _ (λ q. ne (sym q)) a), IsTable-set_match id h ss k nz v below)

IsTable-set_free :
    (id : ℕ) (h : Option ℕ) (t : List HandlerSlot) (k : ℕ)
    → id ≢ 0
    → IsTable t
    → Absent id t
    → IsTable (set t k (record { id = id; handler = h }))
IsTable-set_free id h [] k nz v a = tt
IsTable-set_free id h (s ∷ ss) zero nz v a = (inr (nz, a.1), v.1)
IsTable-set_free id h (s ∷ ss) (suc k) nz (inl z, v) a =
    (inl z, IsTable-set_free id h ss k nz v a.1)
IsTable-set_free id h (s ∷ ss) (suc k) nz (inr (p, b), v) a =
    (inr (p, Absent-set s.id k ss _ (λ q. a.0 (sym q)) b), IsTable-set_free id h ss k nz v a.1)

-- What a registration that succeeds means for each ID that is looked up.
abbrev pub Sets : ℕ → Option ℕ → List HandlerSlot → List HandlerSlot → Type 0
Sets id h t t' = (u : ℕ) → lookup t' u ≡ (if id == u then h else lookup t u)

pub lookup-zero : (t : List HandlerSlot) → IsTable t → lookup t 0 ≡ none
unfolding find_handler
lookup-zero [] v = refl
lookup-zero (s ∷ ss) v = ground (arith, lookup-zero ss v.1)

Sets-cases :
    (id : ℕ) (h : Option ℕ) (t t' : List HandlerSlot)
    → id ≢ 0
    → IsTable t
    → IsTable t'
    → lookup t' id ≡ h
    → ((u : ℕ) → u ≢ 0 → id ≢ u → lookup t' u ≡ lookup t u)
    → Sets id h t t'
Sets-cases id h t t' nz v v' own others zero =
    rw (==_ne id 0 nz) (lookup-zero t' v' ∙ sym (lookup-zero t v))
Sets-cases id h t t' nz v v' own others (suc u) = elim (Bool-cases (id == suc u)) [
  | inl e ↦ rw e (ap (lookup t') (sym ((==_iff id (suc u)).0 e)) ∙ own)
  | inr e ↦ rw e (others (suc u) (omega arith) (λ q. cc (e, (==_iff id (suc u)).1 q)))
]

-- The outcome of a registration, for the slots that the loop found.
abbrev pub Registers : ℕ → Option ℕ → List HandlerSlot → Status × List HandlerSlot → Type 0
Registers id h t r =
    ((r.0 ≡ success) × IsTable r.1 × Sets id h t r.1)
    ⊎ ((r ≡ (resource, t)) × (h ≢ none) × Absent id t × IsFull t)

module _ (id : ℕ) (t : List HandlerSlot) (nz : id ≢ 0) (v : IsTable t) where
  matched :
      (h : Option ℕ) (k : ℕ) (f : Option ℕ)
      → last_match id t ≡ some k
      → Registers id h t (update id h t (some k) f)
  unfolding update
  matched none k f e = inl (
    refl,
    IsTable-set_empty t k v,
    Sets-cases id none t _ nz v (IsTable-set_empty t k v)
        (lookup-Absent id _ (Absent-set_empty id t k nz v e))
        λ u uz ne. lookup-set_match_other id u t k empty_slot ne (λ z. uz (sym z)) e,
  )
  matched (some h) k f e = inl (
    refl,
    IsTable-set_match id (some h) t k nz v e,
    Sets-cases id (some h) t _ nz v (IsTable-set_match id (some h) t k nz v e)
        (lookup-set_match id t k (some h) nz v e)
        λ u uz ne. lookup-set_match_other id u t k _ ne ne e,
  )

  unmatched :
      (h : Option ℕ) (f : Option ℕ)
      → last_match id t ≡ none
      → first_empty t ≡ f
      → Registers id h t (update id h t none f)
  unfolding update
  unmatched none f n e = inl (
    refl,
    v,
    Sets-cases id none t t nz v v (lookup-Absent id t (Absent-of_none id t n)) λ u uz ne. refl,
  )
  unmatched (some h) (some k) n e = inl (
    refl,
    IsTable-set_free id (some h) t k nz v (Absent-of_none id t n),
    Sets-cases id (some h) t _ nz v (IsTable-set_free id (some h) t k nz v (Absent-of_none id t n))
        (lookup-set_free id t k (some h) (Absent-of_none id t n) e)
        λ u uz ne. lookup-set_free_other u t k _ uz ne e,
  )
  unmatched (some h) none n e = inr (refl, (λ c. cc), Absent-of_none id t n, IsFull-of_none t e)

  by_slots :
      (h m f : Option ℕ)
      → last_match id t ≡ m
      → first_empty t ≡ f
      → Registers id h t (update id h t m f)
  by_slots h (some k) f em ef = matched h k f em
  by_slots h none f em ef = unmatched h f em ef

  -- On a table whose IDs are distinct, RegisterRequestCompleteHandler and RegisterUnsolicitedHandler
  -- for an ID other than 0 either succeed, keep the IDs distinct, and leave each ID with the handler
  -- that it had, but the given one with the given handler (none if it is NULL); or they fail with
  -- RIL_CLIENT_ERR_RESOURCE and change nothing, and then the handler is not NULL, the ID has no slot
  -- and no slot is empty.
  pub register_lem : (h : Option ℕ) → Registers id h t (register id h t)
  unfolding register
  register_lem h = rw (scan-eq id t) (by_slots h (last_match id t) (first_empty t) refl refl)

pub register-none-IsTable :
    (id : ℕ) (t : List HandlerSlot) → IsTable t → IsTable (register id none t).1
unfolding register
register-none-IsTable id t v = rw (scan-eq id t) (by_match (last_match id t))
  where
    by_match : (m : Option ℕ) → IsTable (update id none t m (first_empty t)).1
    by_match none = v
    by_match (some k) = IsTable-set_empty t k v
