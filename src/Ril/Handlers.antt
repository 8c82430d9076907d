-- ===== src/Ril/Handlers.antt =====
-- The handler tables of ril/libsecril-client/secril-client.cpp: `ReqRespHandler` and `UnsolHandler`
-- have one shape, and RegisterUnsolicitedHandler and RegisterRequestCompleteHandler one loop. A
-- handler is a number that stands for the function pointer; `none` is NULL.
pub mod Scan
pub mod Table
pub mod Register
use android_device_samsung_a.Prelude.{
  ℕ, ◌+◌, Bool, true, false, Option, none, some, List, [], ◌∷◌, ◌==◌, if◌then◌else◌, set, replicate,
}
use android_device_samsung_a.Ril.Status.{Status, success, resource}

pub record HandlerSlot : Type 0 where
  pub id : ℕ
  pub handler : Option ℕ

abbrev pub empty_slot : HandlerSlot
empty_slot = record { id = 0; handler = none }

abbrev pub req_pool_size : ℕ
req_pool_size = 32

abbrev pub no_handlers : List HandlerSlot
no_handlers = replicate req_pool_size empty_slot

-- `first_empty_slot == -1 && id == 0`
abbrev pub keep_first : Option ℕ → Bool → ℕ → Option ℕ
keep_first none true i = some i
keep_first f _ i = f

-- The `for` loop: `match_slot` and `first_empty_slot`, -1 being `none`, with slot `i` the next.
unfoldable pub scan : ℕ → List HandlerSlot → ℕ → Option ℕ → Option ℕ → Option ℕ × Option ℕ
scan id [] i match_slot first_empty = (match_slot, first_empty)
scan id (s ∷ ss) i match_slot first_empty =
    scan id ss (i + 1) (if id == s.id then some i else match_slot)
      (keep_first first_empty (s.id == 0) i)

-- The update behind the loop, for the slots that it found.
unfoldable pub update :
    ℕ → Option ℕ → List HandlerSlot → Option ℕ → Option ℕ → Status × List HandlerSlot
update id none table (some k) f = (success, set table k empty_slot)
update id none table none f = (success, table)
update id (some h) table (some k) f = (success, set table k (record { id = id; handler = some h }))
update id (some h) table none (some k) =
    (success, set table k (record { id = id; handler = some h }))
update id (some h) table none none = (resource, table)

unfoldable pub register : ℕ → Option ℕ → List HandlerSlot → Status × List HandlerSlot
unfolding scan update
register id handler table = let (m, f) = scan id table 0 none none in update id handler table m f

-- The inner loop of FindReqHandler: the first slot of that ID.
unfoldable pub find_handler : List HandlerSlot → ℕ → Option HandlerSlot
find_handler [] id = none
find_handler (s ∷ ss) id = if s.id == id then some s else find_handler ss id

abbrev pub handler_of : Option HandlerSlot → Option ℕ
handler_of none = none
handler_of (some s) = s.handler

-- FindUnsolHandler: the handler of the first slot of that ID.
abbrev pub lookup : List HandlerSlot → ℕ → Option ℕ
lookup table id = handler_of (find_handler table id)
