-- ===== src/Store/Error.antt =====
-- mvirt-cplane/src/store/error.rs: the errors of the store.
use mvirt.Prelude.{ℕ, String, Option}

pub data StoreError : Type 0 where
  not_found : String → StoreError
  conflict : String → StoreError
  version_mismatch : ℕ → ℕ → StoreError
  not_leader : Option ℕ → StoreError
  schedule_failed : String → StoreError
  unauthorized : String → StoreError
  validation : String → StoreError
  gone : String → StoreError
  internal : String → StoreError

pub data Result (A : Type 0) : Type 0 where
  ok : A → Result A
  err : StoreError → Result A
