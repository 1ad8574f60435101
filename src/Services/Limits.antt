-- ===== src/Services/Limits.antt =====
-- The limits that a validated storage gives to the memory store (storage/config.go).
use gatus.Prelude.{◌≡◌, ◌<◌, Option, none, some, pos_part, arith}
use gatus.Suite.Results
use gatus.Memory.Cache.{Cache}
use gatus.Memory.Status.{Status}
use gatus.Memory.Store.{new_store}
use gatus.Memory.Store.Endpoints.{IsSoundStore, new_store-IsSoundStore}
use gatus.Services.{Storage, validate_storage, validate_storage_config}

-- Without an error the limits are positive.
pub validate_storage_config-positive :
    (o : Option Storage)
    → (validate_storage_config o).1 ≡ none
    → (0 < pos_part (validate_storage_config o).0.maximum_number_of_results)
      × (0 < pos_part (validate_storage_config o).0.maximum_number_of_events)
unfolding validate_storage_config validate_storage
validate_storage_config-positive none h = (omega arith, omega arith)
validate_storage_config-positive (some s) h = ground arith

module _ (E : Cache Status) (S : Cache Results.Status) where
  -- A store that is made with the limits of a storage that was accepted is sound.
  pub validated-IsSoundStore :
      (o : Option Storage)
      → (validate_storage_config o).1 ≡ none
      → let s = (validate_storage_config o).0 in
        IsSoundStore E S (
          new_store E S
            (pos_part s.maximum_number_of_results)
            (pos_part s.maximum_number_of_events))
  validated-IsSoundStore o h =
      let (results, events) = validate_storage_config-positive o h in
      new_store-IsSoundStore E S _ _ results events
