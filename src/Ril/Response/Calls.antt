-- ===== src/Ril/Response/Calls.antt =====
-- The callbacks that a program hands to the client library. They run in the reader thread and may
-- call the library again, so each is a function on the client; its own result is dropped.
use android_device_samsung_a.Prelude.{ℕ, Option, List}
use android_device_samsung_a.Ril.Client.{Client}

-- The first argument is the function pointer. `payload` is NULL where it is `none`.
pub record Callbacks : Type 0 where
  pub on_complete : ℕ → Option (List ℕ) → ℕ → Client → Client
  pub on_unsolicited : ℕ → Option (List ℕ) → ℕ → Client → Client
  -- pointer, registered data, error code
  pub on_error : ℕ → ℕ → ℕ → Client → Client
