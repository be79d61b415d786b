-- ===== src/Degradation/Tests.antt =====
-- Runs of src/core/algorithm/degradation_manager.rs, and its theorems at concrete inputs.
use nebula_id.Prelude.{ℕ, ◌≡◌, refl, false, List, [], ◌∷◌}
use nebula_id.Prelude.Assoc.{get, put}
use nebula_id.Types.{AlgorithmType, HealthStatus}
use nebula_id.Degradation.State.{
  record_failure, record_success, should_degrade, mark_degraded, get_circuit_breaker_state, alg_eq,
  new_state,
}
use nebula_id.Degradation.{
  effective_in, check_each, check_one, check_state, finish_check, inspect, inspect_health,
  health_of, record_result, trigger_degradation, first_fallback, write_state, set_fallback_chain,
  Manager, DegradationState, default_degradation_config, new_manager, register_algorithm, refresh,
  usable, determine_effective_algorithm, get_effective_algorithm, record_generation_result,
  check_all_health,
}
use nebula_id.Degradation.Flags.{apply, Flags, Op, registers, sets_chain, records, checks, run}
use nebula_id.Degradation.Routing.{Chosen, refresh-Chosen}
use nebula_id.Degradation.Serving.{Served, run-Served}

-- The segment algorithm is the primary, and snowflake its fallback.
abbrev two : Manager
two = record {
  config = default_degradation_config;
  algorithms = (AlgorithmType.segment, tt) ∷ (AlgorithmType.snowflake, tt) ∷ [];
  health_states =
      (AlgorithmType.segment, new_state AlgorithmType.segment)
      ∷ (AlgorithmType.snowflake, new_state AlgorithmType.snowflake)
      ∷ [];
  current_state = DegradationState.normal;
  primary_algorithm = AlgorithmType.segment;
  fallback_chain = AlgorithmType.snowflake ∷ [];
  last_check = 0;
}

set_up : List (ℕ × Op)
set_up =
    (0, registers AlgorithmType.segment)
    ∷ (0, registers AlgorithmType.snowflake)
    ∷ (0, sets_chain (AlgorithmType.snowflake ∷ []))
    ∷ []

set_up-two : run set_up (new_manager default_degradation_config 0) ≡ two
unfolding set_up run new_manager apply set_fallback_chain register_algorithm write_state put
set_up-two = refl

two-Flags : Flags two
unfolding new_state
two-Flags = (refl, (refl, tt))

all_well : AlgorithmType → HealthStatus
all_well a = HealthStatus.healthy

five_failures : List (ℕ × Op)
five_failures =
    (1, records AlgorithmType.segment false)
    ∷ (2, records AlgorithmType.segment false)
    ∷ (3, records AlgorithmType.segment false)
    ∷ (4, records AlgorithmType.segment false)
    ∷ (5, records AlgorithmType.segment false)
    ∷ (6, checks all_well)
    ∷ []

-- The fallback takes over with the fifth failure.
five_failures-effective : get_effective_algorithm (run five_failures two) ≡ AlgorithmType.snowflake
unfolding five_failures run apply get_effective_algorithm effective_in check_all_health check_each
    check_one check_state finish_check inspect inspect_health health_of record_generation_result
    record_result record_failure record_success should_degrade trigger_degradation refresh
    determine_effective_algorithm first_fallback usable mark_degraded write_state get put new_state
    get_circuit_breaker_state all_well
five_failures-effective = refl

refresh-Chosen_example : Chosen two (get_effective_algorithm (refresh two))
refresh-Chosen_example = refresh-Chosen two two-Flags

run-Served_example : Served (run five_failures two)
unfolding five_failures usable new_state get
run-Served_example = run-Served five_failures two tt two-Flags (_, refl, refl)
