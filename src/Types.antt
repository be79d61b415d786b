-- ===== src/Types.antt =====
-- src/core/types/error.rs and src/core/types/id.rs: the errors, ids and algorithm names that every
-- algorithm shares, and the health report of src/core/algorithm/traits.rs.
pub mod UniqueId
use Prim.Native.String.{String}
use nebula_id.Prelude.{ℕ, Option, none, some, ◌≡◌, refl, ◌⊎◌, inl, inr}

-- Every variant of `CoreError`, in the source's order.
pub data CoreError : Type 0 where
  invalid_id_format : String → CoreError
  invalid_id_string : String → CoreError
  invalid_algorithm_type : String → CoreError
  clock_moved_backward : (last_timestamp : ℕ) → CoreError
  sequence_overflow : (timestamp : ℕ) → CoreError
  segment_exhausted : (max_id : ℕ) → CoreError
  database_error : String → CoreError
  cache_error : String → CoreError
  configuration_error : String → CoreError
  authentication_error : String → CoreError
  rate_limit_exceeded : CoreError
  not_found : String → CoreError
  workspace_disabled : String → CoreError
  biz_tag_not_found : String → CoreError
  api_key_disabled : CoreError
  api_key_expired : CoreError
  invalid_api_key_signature : CoreError
  etcd_error : String → CoreError
  parse_error : String → CoreError
  io_error : String → CoreError
  timeout_error : CoreError
  internal_error : String → CoreError
  invalid_input : String → CoreError
  unknown : CoreError

pub data Result {ℓ} (A : Type ℓ) : Type ℓ where
  ok : A → Result A
  err : CoreError → Result A

pub Result-cases :
    {A : Type 0} (r : Result A) → ((a : A) × (r ≡ ok a)) ⊎ ((e : CoreError) × (r ≡ err e))
Result-cases (ok a) = inl (a, refl)
Result-cases (err e) = inr (e, refl)

unfoldable pub answered : {A : Type 0} → Result A → Option A
answered (ok a) = some a
answered (err e) = none

pub data AlgorithmType : Type 0 where
  segment snowflake uuid_v7 uuid_v4 : AlgorithmType

pub data HealthStatus : Type 0 where
  healthy : HealthStatus
  degraded : String → HealthStatus
  unhealthy : String → HealthStatus
