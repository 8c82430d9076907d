-- ===== src/Ril/Handlers/Scan.antt =====
-- The slots that the registration loop finds, as functions of the table alone.
use android_device_samsung_a.Prelude.{
  ℕ, suc, ◌+◌, ◌≡◌, refl, Option, none, some, List, [], ◌∷◌, ◌==◌, if◌then◌else◌, arith,
}
use android_device_samsung_a.Ril.Handlers.{HandlerSlot, keep_first, scan}

abbrev pub later : Option ℕ → Option ℕ → Option ℕ
later (some k) m = some (suc k)
later none m = m

-- The last slot of that ID.
abbrev pub last_match : ℕ → List HandlerSlot → Option ℕ
last_match id [] = none
last_match id (s ∷ ss) = later (last_match id ss) (if id == s.id then some 0 else none)

-- The first slot of ID 0.
abbrev pub first_empty : List HandlerSlot → Option ℕ
first_empty [] = none
first_empty (s ∷ ss) = if s.id == 0 then some 0 else later (first_empty ss) none

abbrev offset_or : ℕ → Option ℕ → Option ℕ → Option ℕ
offset_or i (some k) m = some (k + i)
offset_or i none m = m

or_offset : ℕ → Option ℕ → Option ℕ → Option ℕ
or_offset i (some k) f = some k
or_offset i none (some k) = some (k + i)
or_offset i none none = none

scan_lem :
    (id : ℕ) (table : List HandlerSlot) (i : ℕ) (m f : Option ℕ)
    → scan id table i m f ≡ (offset_or i (last_match id table) m, or_offset i f (first_empty table))
unfolding scan or_offset
scan_lem id [] i m none = refl
scan_lem id [] i m (some k) = refl
scan_lem id (s ∷ ss) i m none = ground (
  arith,
  scan_lem id ss (i + 1) (if id == s.id then some i else m) (keep_first none (s.id == 0) i),
)
scan_lem id (s ∷ ss) i m (some k) =
    ground (arith, scan_lem id ss (i + 1) (if id == s.id then some i else m) (some k))

pub scan-eq :
    (id : ℕ) (table : List HandlerSlot)
    → scan id table 0 none none ≡ (last_match id table, first_empty table)
unfolding or_offset
scan-eq id table = ground (arith, scan_lem id table 0 none none)
