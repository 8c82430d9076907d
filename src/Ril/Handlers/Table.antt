-- ===== src/Ril/Handlers/Table.antt =====
-- A handler table is a map from request IDs to handlers, of 32 entries at most.
use android_device_samsung_a.Prelude.{
  ℕ, zero, suc, ◌≡◌, ◌≢◌, ◌⊎◌, refl, ap, sym, Option, none, some, List, [], ◌∷◌, arith, set,
}
use android_device_samsung_a.Ril.Handlers.{HandlerSlot, empty_slot, find_handler, lookup}
use android_device_samsung_a.Ril.Handlers.Scan.{last_match, first_empty}

abbrev pub Absent : ℕ → List HandlerSlot → Type 0
Absent id [] = Unit {0}
Absent id (s ∷ ss) = (s.id ≢ id) × Absent id ss

-- No ID but 0, which marks the empty slots, stands in two slots; an empty slot has no handler.
abbrev pub IsTable : List HandlerSlot → Type 0
IsTable [] = Unit {0}
IsTable (s ∷ ss) = (((s.id ≡ 0) × (s.handler ≡ none)) ⊎ ((s.id ≢ 0) × Absent s.id ss)) × IsTable ss

pub Absent-of_none : (id : ℕ) (t : List HandlerSlot) → last_match id t ≡ none → Absent id t
Absent-of_none id [] e = tt
Absent-of_none id (s ∷ ss) e = ground (arith, Absent-of_none id ss)

pub none_of_Absent : (id : ℕ) (t : List HandlerSlot) → Absent id t → last_match id t ≡ none
none_of_Absent id [] a = refl
none_of_Absent id (s ∷ ss) a = ground (arith, none_of_Absent id ss a.1)

pub lookup-Absent : (id : ℕ) (t : List HandlerSlot) → Absent id t → lookup t id ≡ none
unfolding find_handler
lookup-Absent id [] a = refl
lookup-Absent id (s ∷ ss) a = ground (arith, lookup-Absent id ss a.1)

pub Absent-set :
    (id k : ℕ) (t : List HandlerSlot) (s : HandlerSlot)
    → s.id ≢ id
    → Absent id t
    → Absent id (set t k s)
Absent-set id k [] s ne a = tt
Absent-set id zero (x ∷ t) s ne a = (ne, a.1)
Absent-set id (suc k) (x ∷ t) s ne a = (a.0, Absent-set id k t s ne a.1)

-- A match below the head of a table leaves the head another ID.
pub head_ne :
    (id : ℕ) (s : HandlerSlot) (ss : List HandlerSlot) (k : ℕ)
    → id ≢ 0
    → IsTable (s ∷ ss)
    → last_match id (s ∷ ss) ≡ some (suc k)
    → (last_match id ss ≡ some k) × (s.id ≢ id)
head_ne id s ss k nz v e = (below, λ same. clash same)
  where
    below : last_match id ss ≡ some k
    below = ground arith

    clash : s.id ≡ id → ⊥
    clash same = ground (arith, none_of_Absent id ss, ap (λ i. Absent i ss) same)

-- A slot that matches is overwritten by the new handler.
pub lookup-set_match :
    (id : ℕ) (t : List HandlerSlot) (k : ℕ) (h : Option ℕ)
    → id ≢ 0
    → IsTable t
    → last_match id t ≡ some k
    → lookup (set t k (record { id = id; handler = h })) id ≡ h
unfolding find_handler
lookup-set_match id [] k h nz v e = ground arith
lookup-set_match id (s ∷ ss) zero h nz v e = ground arith
lookup-set_match id (s ∷ ss) (suc k) h nz v e =
    let (below, ne) = head_ne id s ss k nz v e in
    ground (arith, lookup-set_match id ss k h nz v.1 below)

-- A slot that matches is the only one of its ID.
pub Absent-set_empty :
    (id : ℕ) (t : List HandlerSlot) (k : ℕ)
    → id ≢ 0
    → IsTable t
    → last_match id t ≡ some k
    → Absent id (set t k empty_slot)
Absent-set_empty id [] k nz v e = tt
Absent-set_empty id (s ∷ ss) zero nz v e = ((λ z. nz (sym z)), Absent-of_none id ss (ground arith))
Absent-set_empty id (s ∷ ss) (suc k) nz v e =
    let (below, ne) = head_ne id s ss k nz v e in (ne, Absent-set_empty id ss k nz v.1 below)

-- A free slot takes a new ID.
pub lookup-set_free :
    (id : ℕ) (t : List HandlerSlot) (k : ℕ) (h : Option ℕ)
    → Absent id t
    → first_empty t ≡ some k
    → lookup (set t k (record { id = id; handler = h })) id ≡ h
unfolding find_handler
lookup-set_free id [] k h a e = ground arith
lookup-set_free id (s ∷ ss) zero h a e = ground arith
lookup-set_free id (s ∷ ss) (suc k) h a e = ground (arith, lookup-set_free id ss k h a.1)

-- Writing a slot that held neither the ID nor now does so leaves what is looked up for that ID.
pub lookup-set_match_other :
    (id u : ℕ) (t : List HandlerSlot) (k : ℕ) (s : HandlerSlot)
    → id ≢ u
    → s.id ≢ u
    → last_match id t ≡ some k
    → lookup (set t k s) u ≡ lookup t u
unfolding find_handler
lookup-set_match_other id u [] k s ne nu e = refl
lookup-set_match_other id u (x ∷ t) zero s ne nu e = ground arith
lookup-set_match_other id u (x ∷ t) (suc k) s ne nu e =
    ground (arith, lookup-set_match_other id u t k s ne nu)

pub lookup-set_free_other :
    (u : ℕ) (t : List HandlerSlot) (k : ℕ) (s : HandlerSlot)
    → u ≢ 0
    → s.id ≢ u
    → first_empty t ≡ some k
    → lookup (set t k s) u ≡ lookup t u
unfolding find_handler
lookup-set_free_other u [] k s nz nu e = refl
lookup-set_free_other u (x ∷ t) zero s nz nu e = ground arith
lookup-set_free_other u (x ∷ t) (suc k) s nz nu e =
    ground (arith, lookup-set_free_other u t k s nz nu)
