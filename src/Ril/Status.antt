-- ===== src/Ril/Status.antt =====
-- The error codes of ril/libsecril-client/secril-client.h.
use android_device_samsung_a.Prelude.{ℕ}

-- RIL_CLIENT_ERR_SUCCESS, RIL_CLIENT_ERR_AGAIN, and so on.
pub data Status : Type 0 where
  success again not_init inval connect io resource unknown : Status

abbrev pub code : Status → ℕ
code success = 0
code again = 1
code not_init = 2
code inval = 3
code connect = 4
code io = 5
code resource = 6
code unknown = 7

pub Status-discrete : Discrete Status
Status-discrete = hlevel
