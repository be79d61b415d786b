-- ===== src/Degradation.antt =====
-- src/core/algorithm/degradation_manager.rs: the health of every algorithm, and which algorithm is
-- in effect, for one caller at a time.
--
-- Instants are nanoseconds. The counters of a run are bytes, and wrap as the source's do. The map of
-- health states is an association list, gone through in its order. `report a` is what the registered
-- algorithm `a` answers to a health check. Logging and the audit logger are left out.
pub mod State
pub mod Routing
pub mod Flags
pub mod Routed
pub mod Checks
pub mod Serving
pub mod Thresholds
mod Tests
use nebula_id.Prelude.{
  ℕ, zero, suc, ◌+◌, ◌-◌, ◌*◌, ◌≡◌, refl, Bool, true, false, not, ◌&&◌, List, [], ◌∷◌, map, Option,
  none, some, ltb, leb, ◌==◌, if◌then◌else◌,
}
use nebula_id.Prelude.Assoc.{Eq, get, put}
use nebula_id.Types.{AlgorithmType, HealthStatus}
use nebula_id.Degradation.State.{
  CircuitBreakerState, HealthState, new_state, record_failure, record_success, should_degrade,
  should_recover, mark_degraded, mark_recovered, reset, get_circuit_breaker_state,
  open_circuit_breaker, half_open_circuit_breaker, close_circuit_breaker, is_circuit_open, alg_eq,
}

pub data DegradationState : Type 0 where
  normal : DegradationState
  degraded_to : AlgorithmType → DegradationState
  critical : DegradationState

pub record DegradationConfig : Type 0 where
  pub enabled : Bool
  pub check_interval_ms : ℕ
  pub failure_threshold : ℕ
  pub recovery_check_interval_ms : ℕ
  pub recovery_threshold : ℕ
  pub auto_recovery : Bool
  pub fallback_chain : List AlgorithmType
  pub circuit_breaker_timeout_ms : ℕ
  pub half_open_success_threshold : ℕ
  pub enable_circuit_breaker : Bool

abbrev pub default_degradation_config : DegradationConfig
default_degradation_config = record {
  enabled = true;
  check_interval_ms = 5000;
  failure_threshold = 5;
  recovery_check_interval_ms = 30000;
  recovery_threshold = 10;
  auto_recovery = true;
  fallback_chain = AlgorithmType.segment ∷ AlgorithmType.snowflake ∷ AlgorithmType.uuid_v7 ∷ [];
  circuit_breaker_timeout_ms = 60000;
  half_open_success_threshold = 2;
  enable_circuit_breaker = true;
}

abbrev pub States : Type 0
States = List (AlgorithmType × HealthState)

pub record Manager : Type 0 where
  pub config : DegradationConfig
  pub algorithms : List (AlgorithmType × Unit {0})
  pub health_states : States
  pub current_state : DegradationState
  pub primary_algorithm : AlgorithmType
  pub fallback_chain : List AlgorithmType
  pub last_check : ℕ

unfoldable pub new_manager : DegradationConfig → ℕ → Manager
new_manager config now = record {
  config = config;
  algorithms = [];
  health_states = [];
  current_state = normal;
  primary_algorithm = AlgorithmType.segment;
  fallback_chain = [];
  last_check = now;
}

-- The state is shared, so a change of it is seen through the map.
unfoldable pub write_state : Manager → AlgorithmType → HealthState → Manager
write_state m a h = record m { health_states = put a h m.health_states }

unfoldable pub register_algorithm : Manager → AlgorithmType → Manager
register_algorithm m a = record (write_state m a (new_state a)) {
  algorithms = put a tt m.algorithms;
}

unfoldable pub set_primary_algorithm : Manager → AlgorithmType → Manager
set_primary_algorithm m a = record m { primary_algorithm = a }

unfoldable pub set_fallback_chain : Manager → List AlgorithmType → Manager
set_fallback_chain m chain = record m { fallback_chain = chain }

-- With a health state, which registration gives and manual degradation too, that is not marked
-- degraded.
pub usable : States → AlgorithmType → Bool
usable states a = elim (get a states) [ none ↦ false | some h ↦ not h.is_degraded ]

pub first_fallback : States → List AlgorithmType → DegradationState
first_fallback states [] = critical
first_fallback states (a ∷ chain) =
    if usable states a then degraded_to a else first_fallback states chain

pub determine_effective_algorithm : Manager → DegradationState
determine_effective_algorithm m =
    if usable m.health_states m.primary_algorithm
    then normal
    else first_fallback m.health_states m.fallback_chain

-- The search of the chain in the critical state.
pub any_serving : AlgorithmType → States → List AlgorithmType → AlgorithmType
any_serving primary states [] = primary
any_serving primary states (a ∷ chain) = elim (get a states) [
  | none ↦ any_serving primary states chain
  | some h ↦ if h.current_state then a else any_serving primary states chain
]

pub effective_in : DegradationState → Manager → AlgorithmType
effective_in normal m = m.primary_algorithm
effective_in (degraded_to a) m = a
effective_in critical m = any_serving m.primary_algorithm m.health_states m.fallback_chain

pub get_effective_algorithm : Manager → AlgorithmType
get_effective_algorithm m = effective_in m.current_state m

pub refresh : Manager → Manager
refresh m = record m { current_state = determine_effective_algorithm m }

trigger_degradation : Manager → AlgorithmType → HealthState → Manager
trigger_degradation m a h = refresh (write_state m a (mark_degraded h))

attempt_recovery : Manager → AlgorithmType → HealthState → Manager
attempt_recovery m a h =
    let recovered = write_state m a (mark_recovered h) in
    if alg_eq.same a m.primary_algorithm then refresh recovered else recovered

-- A result for an algorithm with a health state.
record_result : ℕ → Manager → AlgorithmType → HealthState → Bool → Manager
record_result now m a h true =
    let h' = record_success now h in
    if h'.is_degraded && should_recover h' m.config.recovery_threshold
    then attempt_recovery m a h'
    else write_state m a h'
record_result now m a h false =
    let h' = record_failure now h in
    if not h'.is_degraded && should_degrade h' m.config.failure_threshold
    then trigger_degradation m a h'
    else write_state m a h'

pub record_generation_result : ℕ → Manager → AlgorithmType → Bool → Manager
record_generation_result now m a success = elim (get a m.health_states) [
  | none ↦ m
  | some h ↦ record_result now m a h success
]

pub manual_degrade : Manager → AlgorithmType → Manager
manual_degrade m a = elim (get a m.health_states) [
  | none ↦ write_state m a (mark_degraded (new_state a))
  | some h ↦ write_state m a (mark_degraded h)
]

pub manual_recover : Manager → AlgorithmType → Manager
manual_recover m a = elim (get a m.health_states) [ none ↦ m | some h ↦ write_state m a (reset h) ]

pub update_config : Manager → DegradationConfig → Manager
update_config m config = record m { config = config }

module _ (now : ℕ) (report : AlgorithmType → HealthStatus) where
  -- The text of the reason is only logged.
  health_of : Manager → AlgorithmType → HealthStatus
  health_of m a = elim (get a m.algorithms) [
    | none ↦ HealthStatus.unhealthy "Algorithm not found"
    | some x ↦ report a
  ]

  -- The check of an algorithm whose circuit breaker is half open; whether the states changed.
  probe : Manager → AlgorithmType → HealthState → HealthStatus → Manager × Bool
  probe m a h HealthStatus.healthy =
      if leb m.config.half_open_success_threshold h.consecutive_successes
      then if h.is_degraded
        then (write_state m a (mark_recovered (close_circuit_breaker h)), true)
        else (write_state m a (close_circuit_breaker h), false)
      else (write_state m a (record_success now h), false)
  probe m a h (HealthStatus.degraded reason) =
      (write_state m a (open_circuit_breaker now (record_failure now h)), false)
  probe m a h (HealthStatus.unhealthy reason) =
      (write_state m a (open_circuit_breaker now (record_failure now h)), false)

  inspect_health : Manager → AlgorithmType → HealthState → HealthStatus → Manager × Bool
  inspect_health m a h HealthStatus.healthy = (write_state m a (record_success now h), false)
  inspect_health m a h (HealthStatus.degraded reason) = (write_state m a h, false)
  inspect_health m a h (HealthStatus.unhealthy reason) =
      let h' = record_failure now h in
      if should_degrade h' m.config.failure_threshold
      then if m.config.enable_circuit_breaker
        then (trigger_degradation m a (open_circuit_breaker now h'), true)
        else (trigger_degradation m a h', true)
      else (write_state m a h', false)

  -- The check that follows the circuit breaker's.
  inspect : Manager → AlgorithmType → HealthState → Manager × Bool
  inspect m a h =
      if h.is_degraded then (write_state m a h, false) else inspect_health m a h (health_of m a)

  check_state : Manager → AlgorithmType → HealthState → CircuitBreakerState → Manager × Bool
  check_state m a h CircuitBreakerState.closed = inspect m a h
  check_state m a h CircuitBreakerState.open_state =
      if is_circuit_open now h m.config.circuit_breaker_timeout_ms
      then (m, false)
      else inspect m a (half_open_circuit_breaker h)
  check_state m a h CircuitBreakerState.half_open = probe m a h (health_of m a)

  pub check_one : Manager → AlgorithmType → Manager × Bool
  check_one m a = elim (get a m.health_states) [
    | none ↦ (m, false)
    | some h ↦
        if m.config.enable_circuit_breaker
        then check_state m a h (get_circuit_breaker_state h)
        else inspect m a h
  ]

  check_each : List AlgorithmType → Manager → Bool → Manager × Bool
  check_each [] m changed = (m, changed)
  check_each (a ∷ rest) m changed =
      let step = check_one m a in check_each rest step.0 (if step.1 then true else changed)

  finish_check : Manager × Bool → Manager
  finish_check (m, changed) = record (if changed then refresh m else m) { last_check = now }

  pub check_all_health : Manager → Manager
  check_all_health m = finish_check (check_each (map (λ e. e.0) m.health_states) m false)
