-- ===== src/Ril/Parcel.antt =====
-- `android::Parcel` of libbinder, which the client library calls and this repository does not hold:
-- its operations, as a parameter of the model. A 32-bit integer is its bit pattern.
use android_device_samsung_a.Prelude.{ℕ, Option, List}

pub record ParcelApi : Type 1 where
  pub Parcel : Type 0
  pub empty : Parcel
  pub write_int32 : Parcel → ℕ → Parcel
  pub write : Parcel → List ℕ → Parcel
  -- `data()`, `dataSize()` bytes of it
  pub bytes : Parcel → List ℕ
  -- `setData`
  pub of_bytes : List ℕ → Parcel
  -- `none` is a status other than NO_ERROR.
  pub read_int32 : Parcel → Option (ℕ × Parcel)
  -- `none` is NULL.
  pub read_inplace : Parcel → ℕ → Option (List ℕ)
