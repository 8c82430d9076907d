-- ===== src/Ril/Write.antt =====
-- `blockingWrite` of ril/libsecril-client/secril-client.cpp. What write(2) returns is an input: the
-- outcomes of its calls, in order.
pub mod Laws
use android_device_samsung_a.Prelude.{
  ℕ, ◌+◌, Option, none, some, List, [], ◌∷◌, ◌++◌, ltb, if◌then◌else◌, length, take, drop,
}

-- `wrote n` is a result of at least 0, `interrupted` EINTR, `refused` any other error.
pub data WriteOutcome : Type 0 where
  wrote : ℕ → WriteOutcome
  interrupted refused : WriteOutcome

-- `pending` means that the function waits in write(2), and has not returned.
pub data WriteEnd : Type 0 where
  done closed pending : WriteEnd

pub record Written : Type 0 where
  pub end : WriteEnd
  pub sent : List ℕ
  pub rest : List WriteOutcome

-- The bytes that one call of write(2) takes go out before those of the later calls.
abbrev pub sent_before : List ℕ → Written → Written
sent_before bs w = record w { sent = bs ++ w.sent }

-- The outer and the inner loop from `writeOffset`. A failure closes the descriptor.
unfoldable pub write_from : List WriteOutcome → List ℕ → ℕ → Written
write_from [] buf off = record {
  end = if ltb off (length buf) then pending else done;
  sent = [];
  rest = [];
}
write_from (wrote n ∷ os) buf off =
    let more = sent_before (take n (drop off buf)) (write_from os buf (off + n)) in
    if ltb off (length buf) then more else record { end = done; sent = []; rest = wrote n ∷ os }
write_from (interrupted ∷ os) buf off =
    let more = write_from os buf off in
    if ltb off (length buf) then more else record { end = done; sent = []; rest = interrupted ∷ os }
write_from (refused ∷ os) buf off =
    if ltb off (length buf)
    then record { end = closed; sent = []; rest = os }
    else record { end = done; sent = []; rest = refused ∷ os }

-- `none` is the NULL buffer, for which the descriptor stays open.
unfoldable pub blocking_write : List WriteOutcome → Option (List ℕ) → Option Written
unfolding write_from
blocking_write os none = none
blocking_write os (some buf) = some (write_from os buf 0)
