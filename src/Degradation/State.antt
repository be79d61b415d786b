-- ===== src/Degradation/State.antt =====
-- src/core/algorithm/degradation_manager.rs: `AlgorithmHealthState`, the health of one algorithm.
use nebula_id.Prelude.{
  ℕ, ◌+◌, ◌-◌, ◌*◌, ◌≡◌, ◌↔◌, Bool, true, false, Option, none, some, arith, u8, u64, ltb, leb, ◌==◌,
  if◌then◌else◌,
}
use nebula_id.Prelude.Assoc.{Eq}
use nebula_id.Types.{AlgorithmType}
use nebula_id.CircuitBreaker.{nanos_per_ms}

pub data CircuitBreakerState : Type 0 where
  closed open_state half_open : CircuitBreakerState

abbrev pub same_algorithm : AlgorithmType → AlgorithmType → Bool
same_algorithm AlgorithmType.segment AlgorithmType.segment = true
same_algorithm AlgorithmType.snowflake AlgorithmType.snowflake = true
same_algorithm AlgorithmType.uuid_v7 AlgorithmType.uuid_v7 = true
same_algorithm AlgorithmType.uuid_v4 AlgorithmType.uuid_v4 = true
same_algorithm _ _ = false

pub same_algorithm_iff : (a b : AlgorithmType) → (same_algorithm a b ≡ true) ↔ (a ≡ b)
same_algorithm_iff a b = ground arith

instance abbrev pub alg_eq : Eq AlgorithmType
alg_eq = record { same = same_algorithm; same_iff = same_algorithm_iff }

pub record HealthState : Type 0 where
  pub alg_type : AlgorithmType
  pub consecutive_failures : ℕ
  pub consecutive_successes : ℕ
  pub last_failure_time : Option ℕ
  pub last_success_time : Option ℕ
  pub current_state : Bool
  pub is_degraded : Bool
  pub circuit_breaker_state : ℕ
  pub circuit_breaker_opened_at : Option ℕ
  pub total_requests : ℕ
  pub total_failures : ℕ
  pub total_successes : ℕ
  pub last_request_time : Option ℕ

unfoldable pub new_state : AlgorithmType → HealthState
new_state a = record {
  alg_type = a;
  consecutive_failures = 0;
  consecutive_successes = 0;
  last_failure_time = none;
  last_success_time = none;
  current_state = true;
  is_degraded = false;
  circuit_breaker_state = 0;
  circuit_breaker_opened_at = none;
  total_requests = 0;
  total_failures = 0;
  total_successes = 0;
  last_request_time = none;
}

unfoldable pub record_request : ℕ → HealthState → Bool → HealthState
record_request now h success = record h {
  total_requests = u64 (h.total_requests + 1);
  last_request_time = some now;
  total_successes = if success then u64 (h.total_successes + 1) else h.total_successes;
  total_failures = if success then h.total_failures else u64 (h.total_failures + 1);
}

unfoldable pub record_failure : ℕ → HealthState → HealthState
record_failure now h = record h {
  consecutive_failures = u8 (h.consecutive_failures + 1);
  last_failure_time = some now;
  consecutive_successes = 0;
}

unfoldable pub record_success : ℕ → HealthState → HealthState
record_success now h = record h {
  consecutive_successes = u8 (h.consecutive_successes + 1);
  last_success_time = some now;
  consecutive_failures = 0;
}

unfoldable pub should_degrade : HealthState → ℕ → Bool
should_degrade h threshold = leb threshold h.consecutive_failures

unfoldable pub should_recover : HealthState → ℕ → Bool
should_recover h threshold = leb threshold h.consecutive_successes

unfoldable pub mark_degraded : HealthState → HealthState
mark_degraded h = record h { is_degraded = true; current_state = false }

unfoldable pub mark_recovered : HealthState → HealthState
mark_recovered h = record h { is_degraded = false; current_state = true }

unfoldable pub reset : HealthState → HealthState
reset h = record h {
  consecutive_failures = 0;
  consecutive_successes = 0;
  is_degraded = false;
  current_state = true;
  circuit_breaker_state = 0;
  circuit_breaker_opened_at = none;
}

unfoldable pub get_circuit_breaker_state : HealthState → CircuitBreakerState
get_circuit_breaker_state h =
    if h.circuit_breaker_state == 1
    then open_state
    else if h.circuit_breaker_state == 2
    then half_open
    else closed

unfoldable pub open_circuit_breaker : ℕ → HealthState → HealthState
open_circuit_breaker now h = record h {
  circuit_breaker_state = 1;
  circuit_breaker_opened_at = some now;
}

unfoldable pub half_open_circuit_breaker : HealthState → HealthState
half_open_circuit_breaker h = record h { circuit_breaker_state = 2 }

unfoldable pub close_circuit_breaker : HealthState → HealthState
close_circuit_breaker h = record h { circuit_breaker_state = 0; circuit_breaker_opened_at = none }

unfoldable pub can_make_request : HealthState → Bool
can_make_request h = elim (get_circuit_breaker_state h) [
  | closed ↦ true
  | open_state ↦ false
  | half_open ↦ true
]

-- `elapsed` stops at 0.
unfoldable pub opened_within : ℕ → Option ℕ → ℕ → Bool
opened_within now none timeout_ms = false
opened_within now (some opened_at) timeout_ms = ltb (now - opened_at) (timeout_ms * nanos_per_ms)

unfoldable pub is_circuit_open : ℕ → HealthState → ℕ → Bool
is_circuit_open now h timeout_ms = elim (get_circuit_breaker_state h) [
  | open_state ↦ opened_within now h.circuit_breaker_opened_at timeout_ms
  | _ ↦ false
]
